-- ===== src/Mailbox/Examples.antt =====
-- Two processes that exchange messages.
use emergence_os.Base.{ℕ, ◌≡◌, refl, List, [], ◌∷◌, ◌++◌, nat_eq}
use emergence_os.Base.Dict
use emergence_os.Base.Value.{integer}
use emergence_os.Base.Int.{pos}
use emergence_os.Mailbox.{Message, send, receive, create, pending}
use emergence_os.Mailbox.Fifo.{
  Call, create_call, send_call, receive_call, run, waiting_for, run_keeps_order,
}

abbrev letter : ℕ → ℕ → Message
letter to n = record {
  sender_pid = 1;
  recipient_pid = to;
  payload = integer (pos n);
  id = n;
  timestamp = n;
}

abbrev calls : List Call
calls =
    create_call 1
    ∷ create_call 2
    ∷ send_call (letter 2 10)
    ∷ send_call (letter 1 11)
    ∷ send_call (letter 2 12)
    ∷ send_call (letter 3 13)
    ∷ receive_call 2
    ∷ []

received_in_order :
    ((run 2 calls []).0.received ≡ letter 2 10 ∷ [])
    × (waiting_for 2 (run 2 calls []).1 ≡ letter 2 12 ∷ [])
    × (pending 2 (run 2 calls []).1 ≡ 1)
unfolding run waiting_for send receive create pending Dict.get Dict.put Dict.has
received_in_order = (refl, refl, refl)

run_keeps_order_example :
    waiting_for 2 [] ++ (run 2 calls []).0.accepted
    ≡ (run 2 calls []).0.received ++ waiting_for 2 (run 2 calls []).1
run_keeps_order_example = run_keeps_order 2 calls []
