-- ===== src/Forks/Locked.antt =====
-- lab1/zad3/child.c: children that append their lines to one file, each under an exclusive lock.
pub mod Inv
pub mod Blocks
pub mod Finish
pub mod Ends
use sys_op.Prelude.{
  ℕ, zero, suc, ◌≡◌, Bool, true, false, if◌then◌else◌, List, [], ◌∷◌, ◌++◌, Option, none, some,
  get_elem?, set, replicate,
}

-- The next call of a child. `writing left`: it holds the lock and has `left` lines to write.
pub data Child : Type 0 where
  opening : Child  -- fopen(OUTPUT_NAME, "a")
  locking : Child  -- flock(fd, LOCK_EX)
  writing : (left : ℕ) → Child  -- fwrite and fflush, or flock(fd, LOCK_UN) after the last
  closing : Child  -- fclose
  exited : (status : ℕ) → Child

-- The file by the numbers of the children whose lines it has, the child that holds the lock, and the
-- children. `completed` are the children in the order of their unlocking; no child reads it.
pub record Disk : Type 0 where
  pub file : List ℕ
  pub holder : Option ℕ
  pub children : List Child
  pub completed : List ℕ

-- flock(fd, LOCK_EX), when it does not fail: a child stays where it is while another has the lock.
abbrev pub take_lock : ℕ → ℕ → Option ℕ → Disk → Disk
take_lock m i none s = record s { holder = some i; children = set s.children i (writing m) }
take_lock m i (some other) s = s

-- The call of child `i`, where each writes `m` lines; `ok` tells whether fopen or flock succeeds. If
-- LOCK_UN fails, the fclose behind it gives the lock back.
unfoldable pub child_at : ℕ → ℕ → Bool → Child → Disk → Disk
child_at m i ok opening s = record s {
  children = set s.children i (if ok then locking else exited 1);
}
child_at m i ok locking s =
    if ok then take_lock m i s.holder s else record s { children = set s.children i (exited 1) }
child_at m i ok (writing (suc left)) s = record s {
  file = s.file ++ (i ∷ []);
  children = set s.children i (writing left);
}
child_at m i ok (writing zero) s = record s {
  holder = none;
  children = set s.children i (if ok then closing else exited 1);
  completed = s.completed ++ (i ∷ []);
}
child_at m i ok closing s = record s { children = set s.children i (exited 0) }
child_at m i ok (exited status) s = s

abbrev pub call : ℕ → ℕ → Bool → Option Child → Disk → Disk
call m i ok none s = s
call m i ok (some c) s = child_at m i ok c s

-- The scheduler picks a child.
unfoldable pub step : ℕ → Disk → ℕ × Bool → Disk
step m s (i, ok) = call m i ok (get_elem? s.children i) s

unfoldable pub run : ℕ → List (ℕ × Bool) → Disk → Disk
run m [] s = s
run m (pick ∷ picks) s = run m picks (step m s pick)

-- `n` children that have just been started, after `rm` has removed the file.
abbrev pub launched : ℕ → Disk
launched n = record { file = []; holder = none; children = replicate n opening; completed = [] }
