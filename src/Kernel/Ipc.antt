-- ===== src/Kernel/Ipc.antt =====
-- kernel/src/ipc/mod.rs: bounded message queues, one for each process, and the owners of shared memory.
-- Which processes exist is the process table's state, and is given by `process_exists`.
pub mod Queues
pub mod Shared
pub mod Restored
mod Examples
use dunit_os.Prelude.{
  ℕ, ◌+◌, ◌-◌, Bool, true, false, not, ◌&&◌, ◌||◌, List, [], ◌∷◌, ◌++◌, length, take, drop,
  replicate, is_empty, retain, contains, Option, none, some, min, ltb, leb, ◌==◌, ◌!=◌,
  if◌then◌else◌,
}
use dunit_os.Prelude.Int.{ℤ}
use dunit_os.Prelude.Table.{Table, lookup, insert, remove, size, values}
use dunit_os.Prelude.Results.{Result, ok, err}

abbrev pub max_message_size : ℕ
max_message_size = 256

abbrev pub max_queue_messages : ℕ
max_queue_messages = 128

pub record SharedMemoryRegion : Type 0 where
  pub id : ℕ
  pub physical_addr : ℕ
  pub size : ℕ
  pub owners : List ℕ

abbrev pub add_owner : ℕ → SharedMemoryRegion → SharedMemoryRegion
add_owner pid r = if contains r.owners pid then r else record r { owners = r.owners ++ (pid ∷ []) }

abbrev pub remove_owner : ℕ → SharedMemoryRegion → SharedMemoryRegion
remove_owner pid r = record r { owners = retain (λ p. p != pid) r.owners }

pub data MessageType : Type 0 where
  mouse_event : (x y : ℤ) → (buttons : ℕ) → MessageType
  keyboard_event : (scancode : ℕ) → (pressed : Bool) → MessageType
  render_frame : (buffer_id : ℕ) → MessageType
  window_create : (width height : ℕ) → MessageType
  window_close : (window_id : ℕ) → MessageType

pub record Message : Type 0 where
  pub sender : ℕ
  pub msg_type : MessageType
  pub len : ℕ
  pub bytes : List ℕ

-- `Message::with_data`: the first bytes of an array of `max_message_size`, zero behind them.
unfoldable pub with_data : ℕ → MessageType → List ℕ → Message
with_data sender msg_type bytes = record {
  sender = sender;
  msg_type = msg_type;
  len = len;
  bytes = take len bytes ++ drop len (replicate max_message_size 0);
}
  where
    len : ℕ
    len = min (length bytes) max_message_size

pub data IpcError : Type 0 where
  invalid_target message_too_large queue_full no_message unavailable : IpcError

pub record IpcManager : Type 0 where
  pub shared_regions : Table SharedMemoryRegion
  pub message_queues : Table (List Message)
  pub next_shared_id : ℕ

-- `IpcManager::new`.
abbrev pub new_manager : IpcManager
new_manager = record { shared_regions = []; message_queues = []; next_shared_id = 1 }

unfoldable pub attach_shared_memory : ℕ → ℕ → IpcManager → IpcManager × Option ℕ
attach_shared_memory id pid m = elim (lookup id m.shared_regions) [
  | none ↦ (m, none)
  | some r ↦ (
    record m { shared_regions = insert id (add_owner pid r) m.shared_regions },
    some r.physical_addr,
  )
]

unfoldable pub detach_shared_memory : ℕ → ℕ → IpcManager → IpcManager
detach_shared_memory id pid m = elim (lookup id m.shared_regions) [
  | none ↦ m
  | some r ↦
      if is_empty (remove_owner pid r).owners
      then record m { shared_regions = remove id m.shared_regions }
      else record m { shared_regions = insert id (remove_owner pid r) m.shared_regions }
]

abbrev pub or_empty : Option (List Message) → List Message
or_empty none = []
or_empty (some q) = q

-- The queue of a process, empty where there is none.
unfoldable pub queue_of : IpcManager → ℕ → List Message
queue_of m pid = or_empty (lookup pid m.message_queues)

unfoldable pub put_queue : ℕ → List Message → IpcManager → IpcManager
put_queue pid q m = record m { message_queues = insert pid q m.message_queues }

-- `send_message`: `entry(target).or_insert_with(Vec::new)` comes before the bound is tested.
unfoldable pub send_message :
    (ℕ → Bool) → ℕ → Message → IpcManager → IpcManager × Result IpcError (Unit {0})
unfolding queue_of put_queue
send_message process_exists target msg m =
    if not (process_exists target)
    then (m, err IpcError.invalid_target)
    else if leb max_queue_messages (length (queue_of m target))
    then (put_queue target (queue_of m target) m, err IpcError.queue_full)
    else (put_queue target (queue_of m target ++ (msg ∷ [])) m, ok tt)

abbrev pub receive_from : ℕ → IpcManager → List Message → IpcManager × Option Message
receive_from pid m [] = (m, none)
receive_from pid m (msg ∷ q) = (put_queue pid q m, some msg)

unfoldable pub receive_message : ℕ → IpcManager → IpcManager × Option Message
unfolding queue_of put_queue
receive_message pid m = receive_from pid m (queue_of m pid)

unfoldable pub has_messages : ℕ → IpcManager → Bool
unfolding queue_of
has_messages pid m = not (is_empty (queue_of m pid))

unfoldable pub clear_messages : ℕ → IpcManager → IpcManager
clear_messages pid m = record m { message_queues = remove pid m.message_queues }

-- The manager after a `send_bytes`, its result, and the processes whose waiters it wakes.
abbrev pub sent :
    ℕ → IpcManager × Result IpcError (Unit {0}) → IpcManager × Result IpcError (Unit {0}) × List ℕ
sent target (m, ok u) = (m, ok u, target ∷ [])
sent target (m, err e) = (m, err e, [])

-- `send_bytes`, once the manager is there.
unfoldable pub send_bytes :
    (ℕ → Bool)
    → (sender target : ℕ) → List ℕ
    → IpcManager
    → IpcManager × Result IpcError (Unit {0}) × List ℕ
unfolding send_message with_data
send_bytes process_exists sender target bytes m =
    if is_empty bytes || ltb max_message_size (length bytes)
    then (m, err IpcError.message_too_large, [])
    else sent target
        (send_message process_exists target (with_data sender (MessageType.window_close 0) bytes) m)

-- What `recv_bytes_with_sender` makes of a queue: the manager, the sender and length, and `out` after.
abbrev pub recv_from :
    ℕ → List ℕ → IpcManager → List Message → IpcManager × Result IpcError (ℕ × ℕ) × List ℕ
recv_from pid out m [] = (m, err IpcError.no_message, out)
recv_from pid out m (msg ∷ q) =
    if ltb (length out) msg.len
    then (m, err IpcError.message_too_large, out)
    else (put_queue pid q m, ok (msg.sender, msg.len), take msg.len msg.bytes ++ drop msg.len out)

unfoldable pub recv_bytes_with_sender :
    ℕ → List ℕ → IpcManager → IpcManager × Result IpcError (ℕ × ℕ) × List ℕ
unfolding queue_of put_queue
recv_bytes_with_sender pid out m = recv_from pid out m (queue_of m pid)
