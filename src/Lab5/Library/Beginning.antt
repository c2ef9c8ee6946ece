-- ===== src/Lab5/Library/Beginning.antt =====
-- What initialize_context leaves, on every way through it.
use spovm4_labs.Base.{◌≡◌, refl, ◌⊎◌, ◌≢◌, Bool, true, false, ◌&&◌, ℕ, Option, none, some, arith}
use spovm4_labs.Lab5.Library.{
  Settings, Beginnings, Begun, nothing_begun, create_executor, create_listener, initialize_context,
}
use spovm4_labs.Lab5.Task.{Context}
use spovm4_labs.Stateful.{done, fault, Program, ◌>>◌}

-- initialize_context gives a context only with both of its threads, and where it returns -1 it holds
-- nothing.
pub initialize_context-both :
    (settings : Settings) (a : Beginnings) (o : Option Context) (h : Begun)
    → initialize_context settings a nothing_begun ≡ done o h
    → (o ≡ none) × (h ≡ nothing_begun)
      ⊎ (o ≢ none) × (h ≡ record { is_open = true; has_block = true; executors = 2; threads = 2 })
unfolding initialize_context create_listener create_executor
initialize_context-both settings a o h e = ground arith

listeners-fault :
    {A : Type 0} (r rs w ws : Bool) (k : Program Begun A) (h : Begun)
    → ((r && rs) && (w && ws)) ≡ false
    → (create_listener r rs >> (create_listener w ws >> k)) h ≡ fault
unfolding create_listener create_executor
listeners-fault false rs w ws k h e = refl
listeners-fault true false w ws k h e = refl
listeners-fault true true false ws k h e = refl
listeners-fault true true true false k h e = refl
listeners-fault true true true true k h e = cc

-- Where the target can be created and there is memory for the context, but an executor cannot be made,
-- initialize_context writes through the NULL that it got for it.
pub initialize_context-fault :
    (settings : Settings) (a : Beginnings) (fd : ℕ)
    → a.target_file_fd ≡ some fd
    → a.has_context ≡ true
    → ((a.has_reader && a.reader_started) && (a.has_writer && a.writer_started)) ≡ false
    → initialize_context settings a nothing_begun ≡ fault
unfolding initialize_context
initialize_context-fault settings a fd e f g =
    rw (e, f) (listeners-fault a.has_reader a.reader_started a.has_writer a.writer_started _ _ g)
