-- ===== src/Lab3/Messager.antt =====
-- lab3/src/lin/messager_lin.c and lab3/src/messager.c: two messagers, each of them a process that sends
-- and one that receives, with two semaphores and the shared memory between them. A step is what
-- happens between two calls that another process can notice.
use spovm4_labs.Base.{
  length, ltb, ◌==◌, if◌then◌else◌, ℕ, zero, suc, ◌+◌, ◌-◌, ◌≡◌, Bool, true, false, not, ◌&&◌,
  Option, none, some, List, [], ◌∷◌, ◌++◌,
}
use spovm4_labs.Base.Text.{Text, c_string}

-- BUFFER_SIZE
abbrev pub buffer_size : ℕ
buffer_size = 200

-- where the sending process stands: before and in establishConnection, before the text is read,
-- between strcpy and semop, and after exit
pub data Phase : Type 0 where
  starting waiting ready copied exited : Phase

pub data Receiver : Type 0 where
  absent listening woken : Receiver

-- `input` is what is left of standard input, `printed` the messages that were got.
pub record Party : Type 0 where
  pub phase : Phase
  pub receiver : Receiver
  pub input : Text
  pub printed : List Text

-- The index tells whether `isFirst` is set; the semaphore of the first one has the number 0.
pub record System : Type 0 where
  pub semaphore : Bool → ℕ
  pub party : Bool → Party
  pub shared_memory : Text
  pub is_removed : Bool

abbrev pub put : {A : Type 0} → Bool → A → (Bool → A) → Bool → A
put true v f true = v
put true v f false = f false
put false v f true = f true
put false v f false = v

abbrev pub after : ℕ → Text × Text → Text × Text
after c (line, rest) = (c ∷ line, rest)

-- `fgets(message, n + 1, stdin)`: up to `n` bytes, but none behind a line's end
abbrev pub fgets : ℕ → Text → Text × Text
fgets zero input = ([], input)
fgets (suc n) [] = ([], [])
fgets (suc n) (c ∷ input) = if c == 0x0A then (c ∷ [], input) else after c (fgets n input)

-- A step changes one party.
abbrev pub set_party : Bool → Party → System → System
set_party who p s = record s { party = put who p s.party }

abbrev pub raise : Bool → System → System
raise which s = record s { semaphore = put which (s.semaphore which + 1) s.semaphore }

abbrev pub lower : Bool → System → System
lower which s = record s { semaphore = put which (s.semaphore which - 1) s.semaphore }

abbrev pub is_starting : Phase → Bool
is_starting Phase.starting = true
is_starting p = false

abbrev pub is_waiting : Phase → Bool
is_waiting Phase.waiting = true
is_waiting p = false

abbrev pub is_ready : Phase → Bool
is_ready Phase.ready = true
is_ready p = false

abbrev pub is_copied : Phase → Bool
is_copied Phase.copied = true
is_copied p = false

abbrev pub is_exited : Phase → Bool
is_exited Phase.exited = true
is_exited p = false

abbrev pub is_absent : Receiver → Bool
is_absent Receiver.absent = true
is_absent r = false

abbrev pub is_listening : Receiver → Bool
is_listening Receiver.listening = true
is_listening r = false

abbrev pub is_woken : Receiver → Bool
is_woken Receiver.woken = true
is_woken r = false

pub data Action : Type 0 where
  release connect fail_fork copy post receive print interrupt : Action

-- the process leaves; the first messager removes the shared memory
abbrev pub leave : Bool → Bool → System → System
leave who removes s =
    let s =
      set_party who (record (s.party who) { phase = Phase.exited; receiver = Receiver.absent }) s in
    if who && removes then record s { is_removed = true } else s

-- What each action needs. A `semop` that lowers a semaphore waits until it is
-- positive. Where no receiver was started, `kill` in ctrlCHandler ends the process itself before the
-- memory is removed. Standard input that has ended gives no message.
unfoldable pub can : Bool → Action → System → Bool
can who Action.release s = is_starting (s.party who).phase
can who Action.connect s = is_waiting (s.party who).phase && ltb 0 (s.semaphore (not who))
can who Action.fail_fork s = is_waiting (s.party who).phase && ltb 0 (s.semaphore (not who))
can who Action.copy s = is_ready (s.party who).phase && ltb 0 (length (s.party who).input)
can who Action.post s = is_copied (s.party who).phase
can who Action.receive s = is_listening (s.party who).receiver && ltb 0 (s.semaphore who)
can who Action.print s = is_woken (s.party who).receiver
can who Action.interrupt s = not (is_exited (s.party who).phase)

-- establishConnection up to its second `semop`
abbrev pub release_connection : Bool → System → System
release_connection who s =
    raise who (set_party who (record (s.party who) { phase = Phase.waiting }) s)

-- the second `semop` and the fork
abbrev pub take_connection : Bool → System → System
take_connection who s =
    lower (not who) (
      set_party who (record (s.party who) { phase = Phase.ready; receiver = Receiver.listening }) s)

-- the second `semop`, and no process could be forked
abbrev pub lose_connection : Bool → System → System
lose_connection who s = leave who true (lower (not who) s)

-- the message is read, and sendMessage up to its `semop`
abbrev pub copy_message : Bool → System → System
copy_message who s =
    let line = fgets (buffer_size - 2) (s.party who).input in
    record (set_party who (record (s.party who) { phase = Phase.copied; input = line.1 }) s) {
      shared_memory = c_string line.0;
    }

-- the `semop` of sendMessage
abbrev pub post_message : Bool → System → System
post_message who s =
    raise (not who) (set_party who (record (s.party who) { phase = Phase.ready }) s)

-- the `semop` of messageRecieverLife, and its `printf`
abbrev pub receive_message : Bool → System → System
receive_message who s =
    lower who (set_party who (record (s.party who) { receiver = Receiver.woken }) s)

abbrev pub print_message : Bool → System → System
print_message who s =
    set_party who
      (record (s.party who) {
        receiver = Receiver.listening;
        printed = (s.party who).printed ++ s.shared_memory ∷ [];
      })
      s

-- SIGINT, sent to the sending process alone
abbrev pub ctrl_c_handler : Bool → System → System
ctrl_c_handler who s = leave who (not (is_absent (s.party who).receiver)) s

unfoldable pub perform : Bool → Action → System → System
perform who Action.release s = release_connection who s
perform who Action.connect s = take_connection who s
perform who Action.fail_fork s = lose_connection who s
perform who Action.copy s = copy_message who s
perform who Action.post s = post_message who s
perform who Action.receive s = receive_message who s
perform who Action.print s = print_message who s
perform who Action.interrupt s = ctrl_c_handler who s

-- the states before `establishConnection`
abbrev pub started : Text → Text → System
started first second = record {
  semaphore = λ b. 0;
  party = λ b. record {
    phase = Phase.starting;
    receiver = Receiver.absent;
    input = if b then first else second;
    printed = [];
  };
  shared_memory = [];
  is_removed = false;
}

-- one action after the other, as long as each can happen
unfoldable pub run : List (Bool × Action) → System → Option System
run [] s = some s
run ((who, a) ∷ rest) s = if can who a s then run rest (perform who a s) else none

-- the states that can follow a state
pub data Reaches (s : System) : System → Type 0 where
  here : Reaches s s
  then_act :
      {s' : System} (who : Bool) (a : Action)
      → Reaches s s'
      → can who a s' ≡ true
      → Reaches s (perform who a s')
