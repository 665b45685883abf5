-- ===== src/Security/GatedMailboxManager.antt =====
-- emergence/security/gated_mailbox_manager.py: the facade of a process to the mailboxes.
use emergence_os.Base.{ℕ, Option, Outcome, ◌>>=◌}
use emergence_os.Mailbox
use emergence_os.Mailbox.{Message, MailboxManager, MessageReceived}
use emergence_os.Security.{CapabilityManager, require, message_send}

module _ (manager : CapabilityManager) (pid : ℕ) where
  unfoldable pub send : Message → MailboxManager → Outcome (MailboxManager × MessageReceived)
  send message mailboxes = require pid message_send manager >>= λ _. Mailbox.send message mailboxes

-- Receiving asks for no capability, and only for the owner's mailbox.
unfoldable pub receive : (pid : ℕ) → MailboxManager → Option Message × MailboxManager
receive pid mailboxes = Mailbox.receive pid mailboxes

unfoldable pub pending : (pid : ℕ) → MailboxManager → ℕ
pending pid mailboxes = Mailbox.pending pid mailboxes
