-- ===== src/Media/ProcessRunner/Descriptors.antt =====
-- modules/media: the descriptors that ProcessRunner.cpp opens and closes.
use edge_tts_cpp.Base.{
  ℕ, ◌⊎◌, inl, inr, ◌+◌, ◌≡◌, refl, Bool, true, false, List, [], ◌∷◌, ◌++◌, Bytes, arith, ◌==◌,
  Bool-cases,
}
use edge_tts_cpp.Media.ProcessRunner.{
  Posix, ProcessCommand, ChildEnd, replaced, exits, run_child, Pipe, Call, opened, closed,
  close_now, destroy, drain_fd, drain_both, collect, with_fork, with_stdout, with_pipe, run_process,
}

abbrev pub count : Bool → ℕ
count true = 1
count false = 0

-- How often a log opens a descriptor, and how often it closes it.
unfoldable pub opens : ℕ → List Call → ℕ
opens fd [] = 0
opens fd (opened d ∷ log) = count (fd == d) + opens fd log
opens fd (closed d ∷ log) = opens fd log

unfoldable pub closes : ℕ → List Call → ℕ
closes fd [] = 0
closes fd (opened d ∷ log) = closes fd log
closes fd (closed d ∷ log) = count (fd == d) + closes fd log

abbrev pub IsBalanced : List Call → Type 0
IsBalanced log = (fd : ℕ) → closes fd log ≡ opens fd log

-- A child that the program replaces has closed both ends of both pipes, each once; any other ends
-- with 126 or 127.
abbrev pub IsClean : Pipe → Pipe → ChildEnd × List Call → Type 0
IsClean out err (replaced program args, log) =
    (fd : ℕ)
    → closes fd log
      ≡ opens fd (
          opened out.read_end
          ∷ opened out.write_end
          ∷ opened err.read_end
          ∷ opened err.write_end
          ∷ [])
IsClean out err (exits code, log) = (code ≡ 126) ⊎ (code ≡ 127)

drain_both_lem :
    (turns : List Bool) (outs errs : List Bytes) (out err : Bytes)
    → drain_both turns outs errs out err ≡ (drain_fd outs out, drain_fd errs err)
unfolding drain_both drain_fd
drain_both_lem [] outs errs out err = refl
drain_both_lem (true ∷ turns) [] errs out err = drain_both_lem turns [] errs out err
drain_both_lem (true ∷ turns) (b ∷ outs) errs out err =
    drain_both_lem turns outs errs (out ++ b) err
drain_both_lem (false ∷ turns) outs [] out err = drain_both_lem turns outs [] out err
drain_both_lem (false ∷ turns) outs (b ∷ errs) out err =
    drain_both_lem turns outs errs out (err ++ b)

module _ (posix : Posix) (turns : posix.World → List Bool) (cmd : ProcessCommand) where
  with_fork-IsBalanced :
      (out err : Pipe) (forked : (Bytes ⊎ ℕ) × posix.World)
      → IsBalanced
          (with_fork posix turns cmd out err forked (
            opened out.read_end
            ∷ opened out.write_end
            ∷ opened err.read_end
            ∷ opened err.write_end
            ∷ [])).1
  unfolding with_fork collect destroy close_now opens closes
  with_fork-IsBalanced out err (inl text, w) fd = omega arith
  with_fork-IsBalanced out err (inr pid, w) fd = omega arith

  with_stdout-IsBalanced :
      (out : Pipe) (piped : (Bytes ⊎ Pipe) × posix.World)
      → IsBalanced
          (with_stdout posix turns cmd out piped
            (opened out.read_end ∷ opened out.write_end ∷ [])).1
  unfolding with_stdout destroy close_now opens closes
  with_stdout-IsBalanced out (inl text, w) fd = omega arith
  with_stdout-IsBalanced out (inr err, w) fd = with_fork-IsBalanced out err (posix.fork w) fd

  with_pipe-IsBalanced :
      (piped : (Bytes ⊎ Pipe) × posix.World) → IsBalanced (with_pipe posix turns cmd piped).1
  unfolding with_pipe opens closes
  with_pipe-IsBalanced (inl text, w) fd = refl
  with_pipe-IsBalanced (inr out, w) fd = with_stdout-IsBalanced out (posix.pipe w) fd

  run_child-IsClean :
      (out err : Pipe) (w : posix.World) → IsClean out err (run_child posix turns cmd out err w)
  unfolding run_child opens closes
  run_child-IsClean out err w = elim (Bool-cases (posix.dup2 out.write_end 1 w)) [
    | inr e ↦ rw e (inl refl)
    | inl e ↦ elim (Bool-cases (posix.dup2 err.write_end 2 w)) [
      | inr f ↦ rw (e, f) (inl refl)
      | inl f ↦ elim (Bool-cases (posix.execvp cmd.executable (cmd.executable ∷ cmd.arguments) w)) [
        | inr g ↦ rw (e, f, g) (inr refl)
        | inl g ↦ rw (e, f, g) λ fd. omega arith
      ]
    ]
  ]

  -- The order of the reads: as if the standard output were read to its end first.
  abbrev pub first : posix.World → List Bool
  first w = []

  with_fork-first :
      (out err : Pipe) (forked : (Bytes ⊎ ℕ) × posix.World) (log : List Call)
      → with_fork posix turns cmd out err forked log ≡ with_fork posix first cmd out err forked log
  unfolding with_fork collect drain_both
  with_fork-first out err (inl text, w) log = refl
  with_fork-first out err (inr pid, w) log =
      rw
        (drain_both_lem (turns w) (posix.blocks out.read_end w) (posix.blocks err.read_end w) [] [])
        refl

  with_stdout-first :
      (out : Pipe) (piped : (Bytes ⊎ Pipe) × posix.World) (log : List Call)
      → with_stdout posix turns cmd out piped log ≡ with_stdout posix first cmd out piped log
  unfolding with_stdout
  with_stdout-first out (inl text, w) log = refl
  with_stdout-first out (inr err, w) log = with_fork-first out err (posix.fork w) _

  with_pipe-first :
      (piped : (Bytes ⊎ Pipe) × posix.World)
      → with_pipe posix turns cmd piped ≡ with_pipe posix first cmd piped
  unfolding with_pipe
  with_pipe-first (inl text, w) = refl
  with_pipe-first (inr out, w) = with_stdout-first out (posix.pipe w) _

  -- On every path, whether a pipe, the fork or the wait fails or not, `run` closes each descriptor as
  -- often as it has opened it, and its result does not depend on the order in which the two threads
  -- read: it is that of reading the standard output to its end first. A child that the program
  -- replaces has closed both ends of both pipes, each once; any other child ends with 126 or 127.
  pub run_process_lem :
      (w : posix.World)
      → IsBalanced (run_process posix turns cmd w).1
        × (run_process posix turns cmd w ≡ run_process posix first cmd w)
        × ((out err : Pipe) → IsClean out err (run_child posix turns cmd out err w))
  unfolding run_process
  run_process_lem w = (
    with_pipe-IsBalanced (posix.pipe w),
    with_pipe-first (posix.pipe w),
    λ out err. run_child-IsClean out err w,
  )
