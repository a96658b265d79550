-- ===== src/Kernel/Ipc/Examples.antt =====
-- kernel/src/ipc/mod.rs: a short message, as an example of the theorems.
use dunit_os.Kernel.Pmm.{Pmm, is_clear, mark_used, set_bit}
use dunit_os.Kernel.Ipc.Shared.{take_frames, Created, create_shared_memory}
use dunit_os.Prelude.{ℕ, ◌≡◌, refl, Bool, List, [], ◌∷◌, ◌++◌, length, drop, ltb, arith, some}
use dunit_os.Prelude.Table.{lookup}
use dunit_os.Prelude.Results.{ok}
use dunit_os.Kernel.Ipc.{
  Message, MessageType, new_manager, queue_of, send_message, send_bytes, recv_bytes_with_sender,
  with_data,
}
use dunit_os.Kernel.Ipc.Queues.{Enqueues, send_message_lem, send-recv}

abbrev lives : ℕ → Bool
lives pid = ltb pid 5

abbrev greeting : List ℕ
greeting = b'h' ∷ b'i' ∷ []

abbrev letter : Message
letter = with_data 1 (MessageType.window_close 0) greeting

abbrev room : List ℕ
room = 0 ∷ 0 ∷ 0 ∷ []

send_message_lem_example : Enqueues 2 letter new_manager (send_message lives 2 letter new_manager)
send_message_lem_example = send_message_lem lives 2 letter new_manager

idle : queue_of new_manager 2 ≡ []
unfolding queue_of lookup
idle = refl

send-recv_example :
    ((recv_bytes_with_sender 2 room (send_bytes lives 1 2 greeting new_manager).0).1
      ≡ ok (1, length greeting))
    × ((recv_bytes_with_sender 2 room (send_bytes lives 1 2 greeting new_manager).0).2
        ≡ greeting ++ drop (length greeting) room)
send-recv_example =
    send-recv lives 1 2 greeting room new_manager refl idle (omega arith) (omega arith)
      (omega arith)

-- Frames 0 and 2 are in use.
abbrev pool : Pmm
pool = record {
  bitmap = 5 ∷ [];
  total_frames = 8;
  usable_frames = 8;
  free_frames = 6;
  base_addr = 0x1000;
}

-- The frames of a region need not follow each other: frame 2, between these, belongs to something else.
three_pages : (take_frames 3 [] pool).1 ≡ some (0x2000 ∷ 0x4000 ∷ 0x5000 ∷ [])
unfolding take_frames is_clear mark_used set_bit
three_pages = refl

no_pages : (create_shared_memory 0 new_manager (some pool)).2 ≡ Created.panicked
unfolding create_shared_memory
no_pages = refl
