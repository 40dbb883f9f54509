-- ===== src/Signals/Kernel.antt =====
-- What a process of lab2 sees of the kernel: the disposition of SIGUSR1, the mask, the pending signal
-- and the output; and the calls sigaction, sigprocmask, sigpending and raise. The output is unbuffered,
-- as under the `stdbuf -o0` of lab2/zad3/test.sh, so that a process that is killed has printed all of it.
use sys_op.Prelude.{
  ℕ, ◌+◌, ◌/◌, ◌%◌, ◌-◌, List, [], ◌∷◌, ◌++◌, Bool, true, false, if◌then◌else◌, codes, length, set,
}

pub data Disposition : Type 0 where
  default_action ignored handled : Disposition

-- A line on the standard output or on the standard error.
pub data Line : Type 0 where
  round : ℕ → Line
  sending : Line  -- "Wysyłam sygnał USR1"
  unblocking : Line  -- "Odblokowuję USR1"
  handler_message : List ℕ → Line
  finished : Line  -- "Pętla została wykonana w całości"
  usage : Line  -- "Invalid number of arguments", "Invalid mode selected"
  bad_mode : Line  -- "Invalid mode %c parsed in mode_setup"
  improper_mode : Line  -- "improper mode passed into mode_setup"
  failure : Line  -- of perror

pub record Process : Type 0 where
  pub disposition : Disposition
  pub blocked : Bool
  pub pending : Bool
  pub output : List Line  -- newest first

-- A process runs, was killed by a signal, or has exited with a status.
pub data Run (A : Type 0) : Type 0 where
  running : A → Process → Run A
  killed : Process → Run A
  exited : ℕ → Process → Run A

-- A program: what it does to the process.
abbrev pub Program : Type 0 → Type 0
Program A = Process → Run A

infixl 5 ◌>>=◌ ◌>>◌
abbrev pub then_run : {A B : Type 0} → Run A → (A → Program B) → Run B
then_run (running a p) f = f a p
then_run (killed p) f = killed p
then_run (exited n p) f = exited n p

abbrev pub ◌>>=◌ : {A B : Type 0} → Program A → (A → Program B) → Program B
◌>>=◌ m f p = then_run (m p) f

abbrev pub ◌>>◌ : {B : Type 0} → Program (Unit {0}) → Program B → Program B
m >> k = m >>= λ _. k

abbrev pub pure : {A : Type 0} → A → Program A
pure a p = running a p

abbrev pub print : Line → Program (Unit {0})
print l p = running tt (record p { output = l ∷ p.output })

abbrev pub exit : {A : Type 0} → ℕ → Program A
exit n p = exited n p

-- Which calls of the kernel succeed.
pub record Os : Type 0 where
  pub sigaction_ok : Bool
  pub sigprocmask_ok : Bool
  pub sigpending_ok : Bool

-- "Wywołano handler dla sygnału **\n" in UTF-8.
abbrev pub message_head : List ℕ
message_head =
    codes "Wywo" ++ (0xc5 ∷ 0x82 ∷ (codes "ano handler dla sygna" ++ (0xc5 ∷ 0x82 ∷ codes "u ")))

abbrev pub message : List ℕ
message = message_head ++ (b'*' ∷ b'*' ∷ 10 ∷ [])

-- The bytes that `custom_handler` writes: the digits of the signal's number take the stars' places.
unfoldable pub custom_handler : ℕ → List ℕ
custom_handler signo =
    let len = length message in
    let msg = set message (len - 2) (b'0' + signo % 10) in set msg (len - 3) (b'0' + signo / 10)

-- SIGUSR1 of Linux.
abbrev pub sigusr1 : ℕ
sigusr1 = 10

-- SIGUSR1 reaches the process.
abbrev deliver_by : Disposition → Program (Unit {0})
deliver_by default_action p = killed p
deliver_by ignored p = running tt p
deliver_by handled p = print (handler_message (custom_handler sigusr1)) p

abbrev pub deliver : Program (Unit {0})
deliver p = deliver_by p.disposition p

-- raise(SIGUSR1): a blocked signal stays pending.
unfoldable pub raise : Program (Unit {0})
raise p = if p.blocked then running tt (record p { pending = true }) else deliver p

-- sigaction(SIGUSR1, …): it tells whether it has succeeded.
unfoldable pub sigaction : Os → Disposition → Program Bool
sigaction os d p =
    if os.sigaction_ok then running true (record p { disposition = d }) else running false p

-- sigprocmask(SIG_BLOCK, {SIGUSR1})
unfoldable pub sigprocmask_block : Os → Program Bool
sigprocmask_block os p =
    if os.sigprocmask_ok then running true (record p { blocked = true }) else running false p

-- sigprocmask(SIG_UNBLOCK, {SIGUSR1}): a pending signal is delivered before it returns.
unfoldable pub sigprocmask_unblock : Os → Program Bool
sigprocmask_unblock os p =
    if os.sigprocmask_ok
    then (if p.pending
        then then_run (deliver (record p { blocked = false; pending = false })) (λ _. pure true)
        else running true (record p { blocked = false }))
    else running false p
