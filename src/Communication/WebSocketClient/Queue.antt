-- ===== src/Communication/WebSocketClient/Queue.antt =====
-- WebSocketClient.cpp: the queue between the library's thread and the caller.
use mathlib.Core.Path.{subst}
use edge_tts_cpp.Base.{
  if◌then◌else◌, Bool, true, false, none, some, List, [], ◌∷◌, ◌++◌, append_assoc, append-nil, map,
  ◌≡◌, refl, ap, ◌∙◌, sym, arith, All, All-append, Bool-cases, Option-cases, inl, inr,
}
use edge_tts_cpp.Common.Error.{ErrorCode, Result, ok, fail}
use edge_tts_cpp.Communication.Platform.{WebSocketMessage}
use edge_tts_cpp.Communication.WebSocketClient.{
  IxMessage, QueueItem, WebSocketClient, item_of, on_message, result_of, receive, wait,
}

-- The items of some messages, in the order of their arrival.
unfoldable pub items_of : List IxMessage → List QueueItem
unfolding item_of
items_of [] = []
items_of (m ∷ ms) = elim (item_of m) [ none ↦ items_of ms | some item ↦ item ∷ items_of ms ]

-- What the thread and the caller do, in any order: a message arrives while nobody waits, or the
-- caller receives while these messages arrive.
pub data Step : Type 0 where
  arrives : IxMessage → Step
  receives : List IxMessage → Step

unfoldable pub arrive_all : List IxMessage → WebSocketClient → WebSocketClient
unfolding on_message
arrive_all [] c = c
arrive_all (m ∷ ms) c = arrive_all ms (on_message m c)

-- The results of the calls of `receive`, in their order. What has not arrived in a wait that ended
-- arrives behind it.
unfoldable pub run : List Step → WebSocketClient → List (Result WebSocketMessage) × WebSocketClient
unfolding on_message receive arrive_all
run [] c = ([], c)
run (arrives m ∷ steps) c = run steps (on_message m c)
run (receives ms ∷ steps) c =
    let (r, c', rest) = receive ms c in
    let (results, last) = run steps (arrive_all rest c') in (r ∷ results, last)

-- All that is pushed in some steps, in order.
unfoldable pub pushed : List Step → List QueueItem
unfolding items_of
pushed [] = []
pushed (arrives m ∷ steps) = items_of (m ∷ []) ++ pushed steps
pushed (receives ms ∷ steps) = items_of ms ++ pushed steps

unfoldable pub is_timeout : Result WebSocketMessage → Bool
is_timeout (ok m) = false
is_timeout (fail e) = elim e.code [ ErrorCode.timeout ↦ true | _ ↦ false ]

-- The results that are not timeouts, behind which other results come.
unfoldable pub without_timeouts : List (Result WebSocketMessage) → List (Result WebSocketMessage)
unfolding is_timeout
without_timeouts [] = []
without_timeouts (r ∷ rs) = if is_timeout r then without_timeouts rs else r ∷ without_timeouts rs

abbrev results_of : List QueueItem → List (Result WebSocketMessage)
results_of = map result_of

abbrev NoTimeouts : List QueueItem → Type 0
NoTimeouts = All (λ i. is_timeout (result_of i) ≡ false)

item_of-no_timeout :
    (m : IxMessage) (i : QueueItem) → item_of m ≡ some i → is_timeout (result_of i) ≡ false
unfolding item_of is_timeout
item_of-no_timeout (IxMessage.message true b) i e = ground arith
item_of-no_timeout (IxMessage.message false b) i e = ground arith
item_of-no_timeout (IxMessage.broken r) i e = ground arith
item_of-no_timeout (IxMessage.close_frame code r) i e = ground arith
item_of-no_timeout IxMessage.other i e = ground arith

items_of-NoTimeouts : (ms : List IxMessage) → NoTimeouts (items_of ms)
unfolding items_of
items_of-NoTimeouts [] = tt
items_of-NoTimeouts (m ∷ ms) = elim (Option-cases (item_of m)) [
  | inl q ↦ rw (q, items_of) (items_of-NoTimeouts ms)
  | inr (i, q) ↦ rw (q, items_of) (item_of-no_timeout m i q, items_of-NoTimeouts ms)
]

pub arrive_all-incoming :
    (ms : List IxMessage) (c : WebSocketClient)
    → (arrive_all ms c).incoming ≡ c.incoming ++ items_of ms
unfolding arrive_all on_message items_of
arrive_all-incoming [] c = sym (append-nil c.incoming)
arrive_all-incoming (m ∷ ms) c = elim (Option-cases (item_of m)) [
  | inl q ↦ ground (arith, arrive_all-incoming ms (on_message m c))
  | inr (i, q) ↦ ground (
    arith,
    arrive_all-incoming ms (on_message m c),
    append_assoc c.incoming (i ∷ []) (items_of ms),
  )
]

abbrev Kept : List IxMessage → Result WebSocketMessage × WebSocketClient × List IxMessage → Type 0
Kept ms (r, c', rest) =
    without_timeouts (r ∷ []) ++ results_of (c'.incoming ++ items_of rest)
    ≡ results_of (items_of ms)

wait-Kept : (ms : List IxMessage) (c : WebSocketClient) → c.incoming ≡ [] → Kept ms (wait ms c)
unfolding wait without_timeouts is_timeout items_of
wait-Kept [] c h = ground arith
wait-Kept (m ∷ ms) c h = elim (Option-cases (item_of m)) [
  | inl q ↦ rw (q, wait, items_of) (wait-Kept ms c h)
  | inr (i, q) ↦
      rw (q, wait, items_of) (rw (item_of-no_timeout m i q, without_timeouts) (rw h refl))
]

wait-incoming : (ms : List IxMessage) (c : WebSocketClient) → (wait ms c).1.incoming ≡ c.incoming
unfolding wait
wait-incoming [] c = refl
wait-incoming (m ∷ ms) c = elim (Option-cases (item_of m)) [
  | inl q ↦ rw (q, wait) (wait-incoming ms c)
  | inr (i, q) ↦ rw (q, wait) refl
]

-- One call of `receive`, and the queue behind it.
receive_lem :
    (ms : List IxMessage) (c : WebSocketClient) (items : List QueueItem)
    → c.incoming ≡ items
    → NoTimeouts items
    → (without_timeouts ((receive ms c).0 ∷ [])
          ++ results_of ((receive ms c).1.incoming ++ items_of (receive ms c).2)
        ≡ results_of (items ++ items_of ms))
      × NoTimeouts (receive ms c).1.incoming
unfolding receive without_timeouts
receive_lem ms c [] q h =
    rw (q, receive) (wait-Kept ms c q, subst NoTimeouts (sym (wait-incoming ms c ∙ q)) tt)
receive_lem ms c (i ∷ items) q (hi, h) = rw (q, receive) (rw (hi, without_timeouts) refl, h)

without_timeouts-cons :
    (r : Result WebSocketMessage) (rs : List (Result WebSocketMessage))
    → without_timeouts (r ∷ rs) ≡ without_timeouts (r ∷ []) ++ without_timeouts rs
unfolding without_timeouts
without_timeouts-cons r rs = elim (Bool-cases (is_timeout r)) [
  | inl q ↦ rw q refl
  | inr q ↦ rw q refl
]

results_of-append :
    (xs ys : List QueueItem) → results_of (xs ++ ys) ≡ results_of xs ++ results_of ys
results_of-append [] ys = refl
results_of-append (x ∷ xs) ys = ap (λ l. result_of x ∷ l) (results_of-append xs ys)

fifo :
    (steps : List Step) (c : WebSocketClient)
    → NoTimeouts c.incoming
    → without_timeouts (run steps c).0 ++ results_of (run steps c).1.incoming
      ≡ results_of (c.incoming ++ pushed steps)
unfolding run pushed without_timeouts
fifo [] c h = rw append-nil refl
fifo (arrives m ∷ steps) c h =
    let more = arrive_all-incoming (m ∷ []) c in
    let safe : NoTimeouts (on_message m c).incoming = subst NoTimeouts (sym more) (
      All-append (λ i. is_timeout (result_of i) ≡ false) c.incoming (items_of (m ∷ [])) h
        (items_of-NoTimeouts (m ∷ []))) in
    fifo steps (on_message m c) safe
    ∙ ap (λ l. results_of (l ++ pushed steps)) more
    ∙ ap results_of (append_assoc c.incoming (items_of (m ∷ [])) (pushed steps))
fifo (receives ms ∷ steps) c h =
    let (r, c', rest) = receive ms c in
    let c1 = arrive_all rest c' in
    let (kept, safe) = receive_lem ms c c.incoming refl h in
    let more = arrive_all-incoming rest c' in
    let safe1 : NoTimeouts c1.incoming = subst NoTimeouts (sym more) (
      All-append (λ i. is_timeout (result_of i) ≡ false) c'.incoming (items_of rest) safe
        (items_of-NoTimeouts rest)) in
    let (rs, last) = run steps c1 in
    ap (λ l. l ++ results_of last.incoming) (without_timeouts-cons r rs)
    ∙ append_assoc (without_timeouts (r ∷ [])) (without_timeouts rs) (results_of last.incoming)
    ∙ ap (λ l. without_timeouts (r ∷ []) ++ l)
        (fifo steps c1 safe1
          ∙ ap (λ l. results_of (l ++ pushed steps)) more
          ∙ results_of-append (c'.incoming ++ items_of rest) (pushed steps))
    ∙ sym (
        append_assoc (without_timeouts (r ∷ [])) (results_of (c'.incoming ++ items_of rest))
          (results_of (pushed steps)))
    ∙ ap (λ l. l ++ results_of (pushed steps)) kept
    ∙ sym (results_of-append (c.incoming ++ items_of ms) (pushed steps))
    ∙ ap results_of (append_assoc c.incoming (items_of ms) (pushed steps))

-- Behind a connect, for every interleaving of the messages that the library's thread handles with the
-- calls of `receive`, during their waits too: the results of these calls that are not timeouts, and
-- then what is left in the queue, are the items that the callback pushed, in the order of arrival.
-- None is lost, none is received twice, and none overtakes another.
pub run-fifo :
    (steps : List Step) (c : WebSocketClient)
    → c.incoming ≡ []
    → without_timeouts (run steps c).0 ++ results_of (run steps c).1.incoming
      ≡ results_of (pushed steps)
run-fifo steps c empty =
    fifo steps c (subst NoTimeouts (sym empty) tt) ∙ ap (λ l. results_of (l ++ pushed steps)) empty
