-- ===== src/Media/ProcessRunner.antt =====
-- modules/media: ProcessRunner.cpp over the calls of POSIX. The parent logs what it does with
-- descriptors; the two threads that read are merged by a schedule.
use edge_tts_cpp.Base.{
  ℕ, ◌⊎◌, inl, inr, ℤ, pos, negsuc, Bool, true, false, Option, none, some, List, [], ◌∷◌, ◌++◌,
  Bytes, lit, if◌then◌else◌,
}
use edge_tts_cpp.Common.Error.{Result, ok, fail, error_in, external_process_failed}
pub mod Descriptors

pub record ProcessCommand : Type 0 where
  pub executable : Bytes
  pub arguments : List Bytes

-- The exit code is -1 for a program that a signal has ended.
pub record ProcessResult : Type 0 where
  pub exit_code : ℤ
  pub stdout_text : Bytes
  pub stderr_text : Bytes

pub record Pipe : Type 0 where
  pub read_end : ℕ
  pub write_end : ℕ

-- The results of successive calls of `waitpid`: those that EINTR has cut short, then the last.
pub data Waited : Type 0 where
  interrupted : Waited → Waited
  not_waited : Bytes → Waited
  exited : ℕ → Waited
  signalled : Waited

-- A negative result of `pipe` or `fork` is `inl` of the text of `strerror(errno)`. `blocks` are
-- what successive calls of `read` on a descriptor return before one that returns 0 or less.
pub record Posix : Type 1 where
  pub World : Type 0
  pub pipe : World → (Bytes ⊎ Pipe) × World
  pub fork : World → (Bytes ⊎ ℕ) × World
  pub blocks : ℕ → World → List Bytes
  pub waitpid : ℕ → World → Waited
  pub dup2 : ℕ → ℕ → World → Bool
  pub execvp : Bytes → List Bytes → World → Bool

pub data Call : Type 0 where
  opened : ℕ → Call
  closed : ℕ → Call

-- A disarmed FdCloser holds -1: `none`.
unfoldable pub close_now : Option ℕ → List Call → List Call
close_now none log = log
close_now (some fd) log = log ++ (closed fd ∷ [])

-- The loop of `drain_fd`.
unfoldable pub drain_fd : List Bytes → Bytes → Bytes
drain_fd [] out = out
drain_fd (block ∷ rest) out = drain_fd rest (out ++ block)

-- The thread for the standard error and the caller's own loop, read by read, until both have ended.
unfoldable pub drain_both : List Bool → List Bytes → List Bytes → Bytes → Bytes → Bytes × Bytes
unfolding drain_fd
drain_both [] outs errs out err = (drain_fd outs out, drain_fd errs err)
drain_both (true ∷ turns) [] errs out err = drain_both turns [] errs out err
drain_both (true ∷ turns) (block ∷ outs) errs out err =
    drain_both turns outs errs (out ++ block) err
drain_both (false ∷ turns) outs [] out err = drain_both turns outs [] out err
drain_both (false ∷ turns) outs (block ∷ errs) out err =
    drain_both turns outs errs out (err ++ block)

-- The loop on `waitpid`, and the exit code.
unfoldable pub wait_child : Waited → Result ℤ
wait_child (interrupted next) = wait_child next
wait_child (not_waited text) = fail (error_in external_process_failed (lit "waitpid() failed") text)
wait_child (exited code) = ok (pos code)
wait_child signalled = ok (negsuc 0)

unfoldable pub process_result : Bytes × Bytes → Result ℤ → Result ProcessResult
process_result texts (fail e) = fail e
process_result (out, err) (ok code) =
    ok (record { exit_code = code; stdout_text = out; stderr_text = err })

-- The four FdClosers; their destructors run in the opposite order of their declarations.
pub record Closers : Type 0 where
  pub stdout_read : Option ℕ
  pub stdout_write : Option ℕ
  pub stderr_read : Option ℕ
  pub stderr_write : Option ℕ

-- With one pipe open, with both, and after the parent has closed the write ends.
abbrev pub one_pipe : Pipe → Closers
one_pipe out = record {
  stdout_read = some out.read_end;
  stdout_write = some out.write_end;
  stderr_read = none;
  stderr_write = none;
}

abbrev pub both_pipes : Pipe → Pipe → Closers
both_pipes out err = record {
  stdout_read = some out.read_end;
  stdout_write = some out.write_end;
  stderr_read = some err.read_end;
  stderr_write = some err.write_end;
}

abbrev pub read_ends : Pipe → Pipe → Closers
read_ends out err = record {
  stdout_read = some out.read_end;
  stdout_write = none;
  stderr_read = some err.read_end;
  stderr_write = none;
}

unfoldable pub destroy : Closers → List Call → List Call
unfolding close_now
destroy c log =
    close_now c.stdout_read
      (close_now c.stdout_write (close_now c.stderr_read (close_now c.stderr_write log)))

pub data ChildEnd : Type 0 where
  replaced : Bytes → List Bytes → ChildEnd
  exits : ℕ → ChildEnd

-- `turns` is the order in which the two threads read: `true` is a read of the standard output.
module _ (posix : Posix) (turns : posix.World → List Bool) (cmd : ProcessCommand) where
  -- The child, up to the program that replaces it.
  unfoldable pub run_child : Pipe → Pipe → posix.World → ChildEnd × List Call
  run_child out err w =
      let log1 = closed out.read_end ∷ closed err.read_end ∷ [] in
      let log2 = log1 ++ (closed out.write_end ∷ []) in
      let log3 = log2 ++ (closed err.write_end ∷ []) in
      if posix.dup2 out.write_end 1 w
      then if posix.dup2 err.write_end 2 w
        then if posix.execvp cmd.executable (cmd.executable ∷ cmd.arguments) w
          then (replaced cmd.executable (cmd.executable ∷ cmd.arguments), log3)
          else (exits 127, log3)
        else (exits 126, log2)
      else (exits 126, log1)

  -- The parent after `fork`.
  unfoldable pub collect :
      Pipe → Pipe → ℕ → posix.World → List Call → Result ProcessResult × List Call
  unfolding close_now drain_both wait_child process_result destroy
  collect out err pid w log =
      let log1 = close_now (some err.write_end) (close_now (some out.write_end) log) in
      let texts =
        drain_both (turns w) (posix.blocks out.read_end w) (posix.blocks err.read_end w) [] [] in
      (process_result texts (wait_child (posix.waitpid pid w)), destroy (read_ends out err) log1)

  unfoldable pub with_fork :
      Pipe → Pipe → (Bytes ⊎ ℕ) × posix.World → List Call → Result ProcessResult × List Call
  unfolding collect destroy
  with_fork out err (inl text, w) log = (
    fail (error_in external_process_failed (lit "fork() failed") text),
    destroy (both_pipes out err) log,
  )
  with_fork out err (inr pid, w) log = collect out err pid w log

  unfoldable pub with_stdout :
      Pipe → (Bytes ⊎ Pipe) × posix.World → List Call → Result ProcessResult × List Call
  unfolding with_fork destroy
  with_stdout out (inl text, w) log = (
    fail (error_in external_process_failed (lit "pipe() failed for stderr") text),
    destroy (one_pipe out) log,
  )
  with_stdout out (inr err, w) log =
      with_fork out err (posix.fork w) (log ++ (opened err.read_end ∷ opened err.write_end ∷ []))

  unfoldable pub with_pipe : (Bytes ⊎ Pipe) × posix.World → Result ProcessResult × List Call
  unfolding with_stdout
  with_pipe (inl text, w) =
      (fail (error_in external_process_failed (lit "pipe() failed for stdout") text), [])
  with_pipe (inr out, w) =
      with_stdout out (posix.pipe w) (opened out.read_end ∷ opened out.write_end ∷ [])

  unfoldable pub run_process : posix.World → Result ProcessResult × List Call
  unfolding with_pipe
  run_process w = with_pipe (posix.pipe w)
