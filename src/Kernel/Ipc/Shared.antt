-- ===== src/Kernel/Ipc/Shared.antt =====
-- kernel/src/ipc/mod.rs: regions of shared memory, whose frames come from the physical allocator, and the statistics.
use dunit_os.Prelude.{
  ℕ, zero, suc, ◌+◌, ◌/◌, ◌%◌, ◌^◌, List, [], ◌∷◌, ◌++◌, length, Option, none, some,
}
use dunit_os.Prelude.Table.{insert, size, total}
use dunit_os.Kernel.Pmm.{Pmm, alloc_frame, free_frame}
use dunit_os.Kernel.Ipc.{IpcManager, SharedMemoryRegion, max_queue_messages}

-- The frames that were taken are given back one by one.
unfoldable pub give_back : List ℕ → Pmm → Pmm
unfolding free_frame
give_back [] p = p
give_back (frame ∷ frames) p = give_back frames (free_frame frame p)

-- The loop that takes the frames, on the pages that are left.
unfoldable pub take_frames : (pages : ℕ) → List ℕ → Pmm → Pmm × Option (List ℕ)
unfolding alloc_frame give_back
take_frames zero frames p = (p, some frames)
take_frames (suc pages) frames p =
    let (p1, found) = alloc_frame p in
    elim found [
      | none ↦ (give_back frames p1, none)
      | some frame ↦ take_frames pages (frames ++ (frame ∷ [])) p1
    ]

-- What `create_shared_memory` comes to: a region of no pages has no first frame, and the code panics.
pub data Created : Type 0 where
  created : (id : ℕ) → Created
  unavailable : Created
  panicked : Created

abbrev pub new_region : (id physical_addr size : ℕ) → SharedMemoryRegion
new_region id physical_addr size = record {
  id = id;
  physical_addr = physical_addr;
  size = size;
  owners = [];
}

abbrev pub registered : (size : ℕ) → IpcManager → List ℕ → IpcManager × Created
registered size m [] =
    (record m { next_shared_id = (m.next_shared_id + 1) % 2 ^ 64 }, Created.panicked)
registered size m (first ∷ frames) = (
  record m {
    shared_regions =
        insert m.next_shared_id (new_region m.next_shared_id first size) m.shared_regions;
    next_shared_id = (m.next_shared_id + 1) % 2 ^ 64;
  },
  Created.created m.next_shared_id,
)

abbrev pub with_frames :
    (size : ℕ) → IpcManager → Pmm × Option (List ℕ) → IpcManager × Option Pmm × Created
with_frames size m (p, none) = (m, some p, Created.unavailable)
with_frames size m (p, some frames) = let (m1, c) = registered size m frames in (m1, some p, c)

-- The pages of a size, whose sum with the rest of a page wraps.
abbrev pub pages_of : (size : ℕ) → ℕ
pages_of size = (size + 4095) % 2 ^ 64 / 4096

unfoldable pub create_shared_memory :
    (size : ℕ) → IpcManager → Option Pmm → IpcManager × Option Pmm × Created
unfolding take_frames
create_shared_memory size m none = (m, none, Created.unavailable)
create_shared_memory size m (some p) = with_frames size m (take_frames (pages_of size) [] p)

pub record IpcStats : Type 0 where
  pub queue_count : ℕ
  pub queued_messages : ℕ
  pub shared_regions : ℕ
  pub max_queue_messages : ℕ

unfoldable pub stats : IpcManager → IpcStats
unfolding size total
stats m = record {
  queue_count = size m.message_queues;
  queued_messages = total (λ queue. length queue) m.message_queues;
  shared_regions = size m.shared_regions;
  max_queue_messages = max_queue_messages;
}
