-- ===== src/Mailbox/Fifo.antt =====
-- The order in which the mailboxes of emergence/kernel/mailbox_manager.py hand messages out.
use emergence_os.Base.{
  ℕ, ◌≡◌, ◌↔◌, refl, ap, ◌∙◌, sym, Bool, true, false, Option, none, some, List, [], ◌∷◌, ◌++◌,
  Outcome, returned, raised, key_error, if◌then◌else◌, ◌==◌, nat_eq, arith, Bool-cases, inl, inr,
}
use mathlib.Core.List.{append-nil, append_assoc}
use emergence_os.Base.Dict
use emergence_os.Mailbox.{
  Message, Mailbox, MailboxManager, MessageReceived, create, create_over, send, send_over, receive,
  receive_over, exists,
}

or_empty : Option Mailbox → Mailbox
or_empty none = []
or_empty (some mailbox) = mailbox

-- The messages that wait for a process, the oldest first.
unfoldable pub waiting_for : ℕ → MailboxManager → List Message
unfolding or_empty
waiting_for pid manager = or_empty (Dict.get pid manager)

-- What the processes and the kernel do with mailboxes while they are in use.
pub data Call : Type 0 where
  create_call : ℕ → Call
  send_call : Message → Call
  receive_call : ℕ → Call

-- What a call gives: the message that was accepted for, or handed to, a process.
pub record Trace : Type 0 where
  pub accepted : List Message
  pub received : List Message

abbrev pub nothing : Trace
nothing = record { accepted = []; received = [] }

-- Of a message for `q`, what `p` sees.
abbrev seen : (p q : ℕ) → Message → List Message
seen p q message = if q == p then message ∷ [] else []

abbrev sent :
    ℕ
    → Message
    → Outcome (MailboxManager × MessageReceived)
    → MailboxManager
    → Trace × MailboxManager
sent p message (returned (manager', event)) manager =
    (record { accepted = seen p message.recipient_pid message; received = [] }, manager')
sent p message (raised e) manager = (nothing, manager)

abbrev taken : (p q : ℕ) → Option Message → Trace
taken p q none = nothing
taken p q (some message) = record { accepted = []; received = seen p q message }

-- One call, with what process `p` sees of it. A send that raises changes nothing.
abbrev pub perform : ℕ → Call → MailboxManager → Trace × MailboxManager
perform p (create_call pid) manager = (nothing, create pid manager)
perform p (send_call message) manager = sent p message (send message manager) manager
perform p (receive_call pid) manager =
    let (message, manager') = receive pid manager in (taken p pid message, manager')

-- A run of calls, with all that process `p` sees.
unfoldable pub run : ℕ → List Call → MailboxManager → Trace × MailboxManager
run p [] manager = (nothing, manager)
run p (c ∷ calls) manager =
    let (first, manager') = perform p c manager in
    let (more, manager'') = run p calls manager' in
    (
      record {
        accepted = first.accepted ++ more.accepted;
        received = first.received ++ more.received;
      },
      manager'',
    )

waiting_for-put :
    (p q : ℕ) (mailbox : Mailbox) (manager : MailboxManager)
    → waiting_for p (Dict.put q mailbox manager)
      ≡ (if q == p then mailbox else waiting_for p manager)
unfolding waiting_for
waiting_for-put p q mailbox manager = ground (arith, Dict.get-put q p mailbox manager)

waiting_for_held :
    (p q : ℕ) (o : Option Mailbox) (manager : MailboxManager)
    → (q == p) ≡ true
    → Dict.get q manager ≡ o
    → waiting_for p manager ≡ or_empty o
unfolding waiting_for
waiting_for_held p q o manager same h = ground (arith, nat_eq.same_iff q p)

-- A call neither loses nor reorders anything.
Keeps : ℕ → Trace → (before after : List Message) → Type 0
Keeps p t before after = before ++ t.accepted ≡ t.received ++ after

send_over-Keeps :
    (p : ℕ) (o : Option Mailbox) (message : Message) (manager : MailboxManager)
    → Dict.get message.recipient_pid manager ≡ o
    → Keeps p
        (sent p message (send_over o message manager) manager).0
        (waiting_for p manager)
        (waiting_for p (sent p message (send_over o message manager) manager).1)
unfolding send_over Keeps
send_over-Keeps p none message manager h = rw append-nil refl
send_over-Keeps p (some mailbox) message manager h =
    elim (Bool-cases (message.recipient_pid == p)) [
      | inl same ↦
          let held = waiting_for_held p message.recipient_pid (some mailbox) manager same h in
          rw (waiting_for-put, same, held) (unfold or_empty in refl)
      | inr other ↦ rw (waiting_for-put, other, append-nil) refl
    ]

receive_over-Keeps :
    (p q : ℕ) (o : Option Mailbox) (manager : MailboxManager)
    → Dict.get q manager ≡ o
    → Keeps p
        (taken p q (receive_over o q manager).0)
        (waiting_for p manager)
        (waiting_for p (receive_over o q manager).1)
unfolding receive_over Keeps
receive_over-Keeps p q none manager h = rw append-nil refl
receive_over-Keeps p q (some []) manager h = elim (Bool-cases (q == p)) [
  | inl same ↦
      let held = waiting_for_held p q (some []) manager same h in
      rw (waiting_for-put, same, held, append-nil) (unfold or_empty in refl)
  | inr other ↦ rw (waiting_for-put, other, append-nil) refl
]
receive_over-Keeps p q (some (message ∷ mailbox)) manager h = elim (Bool-cases (q == p)) [
  | inl same ↦
      let held = waiting_for_held p q (some (message ∷ mailbox)) manager same h in
      rw (waiting_for-put, same, held, append-nil) (unfold or_empty in refl)
  | inr other ↦ rw (waiting_for-put, other, append-nil) refl
]

create_over-Keeps :
    (b : Bool) (p q : ℕ) (manager : MailboxManager)
    → Dict.has q manager ≡ b
    → waiting_for p (create_over b q manager) ≡ waiting_for p manager
unfolding create_over waiting_for or_empty
create_over-Keeps true p q manager h = refl
create_over-Keeps false p q manager h =
    ground (arith, Dict.get-put q p [] manager, Dict.has-eq-is_some q manager, nat_eq.same_iff q p)

perform-Keeps :
    (p : ℕ) (c : Call) (manager : MailboxManager)
    → Keeps p
        (perform p c manager).0
        (waiting_for p manager)
        (waiting_for p (perform p c manager).1)
unfolding create send receive
perform-Keeps p (create_call q) manager =
    unfold Keeps in rw (append-nil, create_over-Keeps (Dict.has q manager) p q manager refl) refl
perform-Keeps p (send_call message) manager =
    send_over-Keeps p (Dict.get message.recipient_pid manager) message manager refl
perform-Keeps p (receive_call q) manager = receive_over-Keeps p q (Dict.get q manager) manager refl

chain :
    {A : Type 0} (a b c d e f g : List A)
    → a ++ b ≡ c ++ d
    → d ++ e ≡ f ++ g
    → a ++ (b ++ e) ≡ (c ++ f) ++ g
chain a b c d e f g h k =
    sym (append_assoc a b e)
    ∙ ap (λ l. l ++ e) h
    ∙ append_assoc c d e
    ∙ ap (λ l. c ++ l) k
    ∙ sym (append_assoc c f g)

-- Over any run of creations, sends and receives, by any processes and in any order: what waited for
-- a process and what was then accepted for it is, in this order, what it received and what still
-- waits for it. No message is lost, doubled, overtaken or handed to another process.
pub run_keeps_order :
    (p : ℕ) (calls : List Call) (manager : MailboxManager)
    → waiting_for p manager ++ (run p calls manager).0.accepted
      ≡ (run p calls manager).0.received ++ waiting_for p (run p calls manager).1
unfolding run
run_keeps_order p [] manager = rw append-nil refl
run_keeps_order p (c ∷ calls) manager =
    let (first, manager') = perform p c manager in
    chain (waiting_for p manager) first.accepted first.received (waiting_for p manager') _ _ _
      (unfold Keeps in perform-Keeps p c manager) (run_keeps_order p calls manager')

-- `send` raises exactly where the recipient has no mailbox.
pub send-eq-raised :
    (message : Message) (manager : MailboxManager)
    → (send message manager ≡ raised key_error) ↔ (exists message.recipient_pid manager ≡ false)
unfolding send exists send_over
send-eq-raised message manager = refused (Dict.get message.recipient_pid manager) refl
  where
    refused :
        (o : Option Mailbox)
        → Dict.get message.recipient_pid manager ≡ o
        → (send_over o message manager ≡ raised key_error)
          ↔ (Dict.has message.recipient_pid manager ≡ false)
    refused o h = ground (arith, Dict.has-eq-is_some message.recipient_pid manager)
