-- ===== src/Security/Gated.antt =====
-- What the facades of emergence/security/gated_*.py let through.
use emergence_os.Base.{
  ℕ, String, ◌≡◌, refl, ◌∙◌, Bool, true, false, ◌||◌, List, [], ◌∷◌, Outcome, returned, raised,
  ==_refl, nat_eq, arith, Bool-cases, inl, inr,
}
use emergence_os.Base.Bag
use emergence_os.Base.Value.{Value}
use emergence_os.Definition.{ProcessDefinition}
use emergence_os.Event.{Event}
use emergence_os.EventBus
use emergence_os.EventBus.{EventBus, Handlers}
use emergence_os.Mailbox
use emergence_os.Mailbox.{Message, MailboxManager}
use emergence_os.Security.{
  Capability, capability_eq, CapabilityManager, capabilities_for_definition,
  default_process_capabilities, grant_all, clear, has, require, state_read, state_write,
  event_publish, message_send,
}
use emergence_os.Security.Grants.{has-grant_definition, declared}
use emergence_os.Security.GatedStateStore
use emergence_os.Security.GatedMailboxManager
use emergence_os.Security.GatedEventBus
use emergence_os.StateStore
use emergence_os.StateStore.Laws
use emergence_os.StateStore.{StateStore, Effect}

-- The calls that a process makes on its facade of the state store.
pub data Call : Type 0 where
  get_call : (key : String) (default : Value) → Call
  set_call : (key : String) (value : Value) → Call
  delete_call exists_call : (key : String) → Call
  keys_call : Call
  watch_call unwatch_call : (key : String) (callback : ℕ) → Call

-- The store after a call of an operation that returns a new one; a raise changes nothing.
abbrev kept {ℓ} : {A : Type ℓ} → (A → StateStore) → Outcome A → StateStore → StateStore
kept f (returned a) s = f a
kept f (raised e) s = s

module _ (manager : CapabilityManager) (pid : ℕ) where
  abbrev pub perform : Call → StateStore → StateStore
  perform (set_call key value) s =
      kept (λ (r : StateStore × List Effect). r.0) (GatedStateStore.set manager pid key value s) s
  perform (delete_call key) s =
      kept (λ (r : StateStore × List Effect). r.0) (GatedStateStore.delete manager pid key s) s
  perform (watch_call key callback) s =
      kept (λ (r : StateStore). r) (GatedStateStore.watch manager pid key callback s) s
  perform (unwatch_call key callback) s = GatedStateStore.unwatch manager pid key callback s
  perform _ s = s

  unfoldable pub run : List Call → StateStore → StateStore
  run [] s = s
  run (c ∷ calls) s = run calls (perform c s)

  perform_denied :
      (c : Call) (s : StateStore)
      → has pid state_write manager ≡ false
      → (perform c s).state ≡ s.state
  unfolding GatedStateStore.set GatedStateStore.delete GatedStateStore.watch GatedStateStore.unwatch
      require
  perform_denied (get_call key default) s h = refl
  perform_denied (set_call key value) s h = rw h refl
  perform_denied (delete_call key) s h = rw h refl
  perform_denied (exists_call key) s h = refl
  perform_denied keys_call s h = refl
  perform_denied (watch_call key callback) s h = elim (Bool-cases (has pid state_read manager)) [
    | inl allowed ↦ rw allowed (Laws.state-watch key callback s)
    | inr denied ↦ rw denied refl
  ]
  perform_denied (unwatch_call key callback) s h = Laws.state-unwatch key callback s

  -- Whatever a process without the capability to write does through its facade, and whether or not
  -- it catches the errors: every value of the store stays as it is.
  pub run_denied :
      (calls : List Call) (s : StateStore)
      → has pid state_write manager ≡ false
      → (run calls s).state ≡ s.state
  unfolding run
  run_denied [] s h = refl
  run_denied (c ∷ calls) s h = run_denied calls (perform c s) h ∙ perform_denied c s h

either_true : (x y : Bool) → y ≡ true → (x || y) ≡ true
either_true x y h = ground arith

holds :
    (c : Capability) (pid : ℕ) (d : ProcessDefinition) (m : CapabilityManager)
    → Bag.has c default_process_capabilities ≡ true
    → has pid c (grant_all pid (capabilities_for_definition d) (clear pid m)) ≡ true
holds c pid d m h =
    has-grant_definition pid pid c d m
    ∙ rw (==_refl pid)
        (either_true (declared c d.required_permissions) (Bag.has c default_process_capabilities) h)

defaults :
    (Bag.has state_read default_process_capabilities ≡ true)
    × (Bag.has state_write default_process_capabilities ≡ true)
    × (Bag.has message_send default_process_capabilities ≡ true)
    × (Bag.has event_publish default_process_capabilities ≡ true)
unfolding Bag.has
defaults = (refl, refl, refl, refl)

-- A process that was given the capabilities of its definition, as at its start and after a recovery,
-- is let through by each facade: it may read and write the state store, publish and send.
pub grant_definition_suffices :
    {W : Type 0} (call : Handlers W) (pid : ℕ) (d : ProcessDefinition) (m : CapabilityManager)
    (key : String) (value : Value) (s : StateStore) (message : Message) (mailboxes : MailboxManager)
    (event : Event) (b : EventBus × W)
    → let manager = grant_all pid (capabilities_for_definition d) (clear pid m) in
      (GatedStateStore.get manager pid key value s ≡ returned (StateStore.get key value s))
      × (GatedStateStore.set manager pid key value s ≡ returned (StateStore.set key value s))
      × (GatedStateStore.delete manager pid key s ≡ returned (StateStore.delete key s))
      × (GatedMailboxManager.send manager pid message mailboxes ≡ Mailbox.send message mailboxes)
      × (GatedEventBus.publish call manager pid event b ≡ returned (EventBus.publish call event b))
unfolding GatedStateStore.get GatedStateStore.set GatedStateStore.delete GatedMailboxManager.send
    GatedEventBus.publish require
grant_definition_suffices call pid d m key value s message mailboxes event b = (
  rw (holds state_read pid d m defaults.0) refl,
  rw (holds state_write pid d m defaults.1) refl,
  rw (holds state_write pid d m defaults.1) refl,
  rw (holds message_send pid d m defaults.2) refl,
  rw (holds event_publish pid d m defaults.3) refl,
)
