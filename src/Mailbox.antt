-- ===== src/Mailbox.antt =====
-- emergence/kernel/mailbox.py and emergence/kernel/mailbox_manager.py. Each operation holds the
-- lock of its mailbox for its whole body, so it is one step.
pub mod Fifo
mod Examples
use emergence_os.Base.{
  ℕ, String, Bool, true, false, Option, none, some, List, [], ◌∷◌, ◌++◌, length, Outcome, returned,
  raised, key_error, nat_eq,
}
use emergence_os.Base.Dict
use emergence_os.Base.Dict.{Dict}
use emergence_os.Base.Value.{Value}

-- emergence/common/message.py
pub record Message : Type 0 where
  pub sender_pid : ℕ
  pub recipient_pid : ℕ
  pub payload : Value
  pub id : ℕ
  pub timestamp : ℕ

-- `_queue`, the oldest message first.
abbrev pub Mailbox : Type 0
Mailbox = List Message

abbrev pub send_to : Message → Mailbox → Mailbox
send_to message mailbox = mailbox ++ message ∷ []

-- `receive` of a mailbox.
unfoldable pub receive_from : Mailbox → Option Message × Mailbox
receive_from [] = (none, [])
receive_from (message ∷ mailbox) = (some message, mailbox)

unfoldable pub peek : Mailbox → Option Message
peek [] = none
peek (message ∷ mailbox) = some message

unfoldable pub empty : Mailbox → Bool
empty [] = true
empty (message ∷ mailbox) = false

unfoldable pub size : Mailbox → ℕ
size mailbox = length mailbox

abbrev pub clear : Mailbox → Mailbox
clear mailbox = []

-- The mailboxes of the manager, by process.
abbrev pub MailboxManager : Type 0
MailboxManager = Dict ℕ Mailbox

create_over : Bool → ℕ → MailboxManager → MailboxManager
create_over true pid manager = manager
create_over false pid manager = Dict.put pid [] manager

unfoldable pub create : ℕ → MailboxManager → MailboxManager
unfolding create_over
create pid manager = create_over (Dict.has pid manager) pid manager

unfoldable pub delete : ℕ → MailboxManager → MailboxManager
delete pid manager = Dict.pop pid manager

unfoldable pub exists : ℕ → MailboxManager → Bool
exists pid manager = Dict.has pid manager

or_key_error : Option Mailbox → Outcome Mailbox
or_key_error none = raised key_error
or_key_error (some mailbox) = returned mailbox

-- `mailbox`, as `self._mailboxes[pid]`.
unfoldable pub mailbox_of : ℕ → MailboxManager → Outcome Mailbox
unfolding or_key_error
mailbox_of pid manager = or_key_error (Dict.get pid manager)

-- The event that `send` publishes at its end: emergence/events/message_received_event.py.
pub record MessageReceived : Type 0 where
  pub recipient_pid : ℕ
  pub message : Message

send_over : Option Mailbox → Message → MailboxManager → Outcome (MailboxManager × MessageReceived)
send_over none message manager = raised key_error
send_over (some mailbox) message manager = returned (
  Dict.put message.recipient_pid (send_to message mailbox) manager,
  record { recipient_pid = message.recipient_pid; message = message },
)

unfoldable pub send : Message → MailboxManager → Outcome (MailboxManager × MessageReceived)
unfolding send_over
send message manager = send_over (Dict.get message.recipient_pid manager) message manager

receive_over : Option Mailbox → ℕ → MailboxManager → Option Message × MailboxManager
unfolding receive_from
receive_over none pid manager = (none, manager)
receive_over (some mailbox) pid manager =
    let (message, left) = receive_from mailbox in (message, Dict.put pid left manager)

unfoldable pub receive : ℕ → MailboxManager → Option Message × MailboxManager
unfolding receive_over
receive pid manager = receive_over (Dict.get pid manager) pid manager

size_or_zero : Option Mailbox → ℕ
unfolding size
size_or_zero none = 0
size_or_zero (some mailbox) = size mailbox

unfoldable pub pending : ℕ → MailboxManager → ℕ
unfolding size_or_zero
pending pid manager = size_or_zero (Dict.get pid manager)

-- `clear` of the manager.
abbrev pub clear_all : MailboxManager → MailboxManager
clear_all manager = []
