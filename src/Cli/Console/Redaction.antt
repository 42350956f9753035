-- ===== src/Cli/Console/Redaction.antt =====
-- The dispatchers: what a printed error shows of a URL with credentials.
use edge_tts_cpp.Base.{
  ℕ, ◌+◌, false, some, [], ◌∷◌, ◌++◌, append_assoc, Bytes, codes, All-append, length, take, drop,
  find, find_byte, starts_with, is_empty, All, take-length-append, drop-length-append, drop-drop,
  length-append, ◌≡◌, ◌≢◌, refl, ap, ◌∙◌, sym, arith,
}
use edge_tts_cpp.Cli.Console.{format_error}
use edge_tts_cpp.Common.Error.{ErrorCode, error_in, to_string, has_context}
use edge_tts_cpp.Communication.Config.{sanitize_proxy_url}
use edge_tts_cpp.Serialization.Protocol.RoundTrip.{find_byte-append}

-- No byte of a text is the given one.
abbrev pub Without : ℕ → Bytes → Type 0
Without c s = All (λ x. x ≢ c) s

find-scheme :
    (scheme rest : Bytes)
    → Without b':' scheme
    → find (codes "://") (scheme ++ (codes "://" ++ rest)) ≡ some (length scheme)
unfolding find starts_with
find-scheme [] rest w = ground arith
find-scheme (x ∷ scheme) rest (nx, w) = ground (arith, find-scheme scheme rest w)

module _ (scheme user host : Bytes) (ws : Without b':' scheme) (wu : Without b'@' user) where
  abbrev url : Bytes
  url = scheme ++ (codes "://" ++ (user ++ b'@' ∷ host))

  length-start : length scheme + 3 ≡ length (scheme ++ codes "://")
  length-start = sym (length-append scheme (codes "://"))

  url-split : url ≡ (scheme ++ codes "://") ++ (user ++ b'@' ∷ host)
  url-split = sym (append_assoc scheme (codes "://") (user ++ b'@' ∷ host))

  take-url : take (length scheme + 3) url ≡ scheme ++ codes "://"
  take-url =
      ap (λ n. take n url) length-start
      ∙ ap (take (length (scheme ++ codes "://"))) url-split
      ∙ take-length-append (scheme ++ codes "://") (user ++ b'@' ∷ host)

  drop-url : drop (length scheme + 3) url ≡ user ++ b'@' ∷ host
  drop-url =
      ap (λ n. drop n url) length-start
      ∙ ap (drop (length (scheme ++ codes "://"))) url-split
      ∙ drop-length-append (scheme ++ codes "://") (user ++ b'@' ∷ host)

  drop-at : drop (length scheme + 3 + length user) url ≡ b'@' ∷ host
  drop-at =
      sym (drop-drop (length scheme + 3) (length user) url)
      ∙ ap (drop (length user)) drop-url
      ∙ drop-length-append user (b'@' ∷ host)

  sanitize-url :
      sanitize_proxy_url url ≡ (scheme ++ codes "://") ++ (codes "[credentials]" ++ b'@' ∷ host)
  unfolding sanitize_proxy_url
  sanitize-url =
      let found = find-scheme scheme (user ++ b'@' ∷ host) ws in
      let at : find_byte b'@' (drop (length scheme + 3) url) ≡ some (length user) =
        ap (find_byte b'@') drop-url ∙ find_byte-append b'@' user host wu in
      rw (found, sanitize_proxy_url) (rw (at, sanitize_proxy_url) (rw (take-url, drop-at) refl))

nonempty : (scheme rest : Bytes) → is_empty (scheme ++ (codes "://" ++ rest)) ≡ false
unfolding is_empty
nonempty [] rest = refl
nonempty (x ∷ scheme) rest = refl

-- The text of an error whose context is a URL with credentials, scheme://user@host, has
-- "[credentials]" in their place: it does not depend on what the user part is, if that part has no
-- '@' and the scheme no ':'.
pub format_error-url :
    (code : ErrorCode) (message scheme user host : Bytes)
    → Without b':' scheme
    → Without b'@' user
    → format_error (error_in code message (scheme ++ (codes "://" ++ (user ++ b'@' ∷ host))))
      ≡ codes "["
        ++ to_string code
        ++ codes "] "
        ++ message
        ++ codes " (context: "
        ++ ((scheme ++ codes "://") ++ (codes "[credentials]" ++ b'@' ∷ host))
        ++ codes ")"
unfolding format_error has_context
format_error-url code message scheme user host ws wu =
    let found = find-scheme scheme (user ++ b'@' ∷ host) ws in
    rw (nonempty scheme (user ++ b'@' ∷ host), format_error)
      (rw (found, format_error) (rw (sanitize-url scheme user host ws wu) refl))

-- A URL with an '@' behind its host, and no credentials, loses the host.
pub sanitize-path :
    (scheme host path rest : Bytes)
    → Without b':' scheme
    → Without b'@' host
    → Without b'@' path
    → sanitize_proxy_url (scheme ++ (codes "://" ++ ((host ++ path) ++ b'@' ∷ rest)))
      ≡ (scheme ++ codes "://") ++ (codes "[credentials]" ++ b'@' ∷ rest)
sanitize-path scheme host path rest ws wh wp =
    sanitize-url scheme (host ++ path) rest ws (All-append (λ x. x ≢ b'@') host path wh wp)
