-- ===== src/Kernel/Handle/Examples.antt =====
-- kernel/src/handle.rs: a small table, as an example of the theorems.
use dunit_os.Prelude.{◌≡◌, refl, false, List, [], ◌∷◌, bit_and, arith}
use dunit_os.Prelude.Table.{lookup, size}
use dunit_os.Prelude.Results.{ok}
use dunit_os.Kernel.Handle.{
  HandleEntry, HandleTable, HandleObject, insert_object, duplicate, get, rights_all, try_acquire,
}
use dunit_os.Kernel.Handle.Fresh.{Publishes, insert_object_lem}
use dunit_os.Kernel.Handle.Rights.{Narrows, duplicate_lem, MasterCall, owner_after, master_held}

abbrev channel : HandleEntry
channel = record { object = HandleObject.endpoint 4; rights = 24 }

-- The next id that it would try is taken.
abbrev held : HandleTable
held = record { entries = (1, channel) ∷ []; next = 1 }

insert_object_lem_example :
    Publishes held
      (HandleObject.shared_frames 9)
      7
      (insert_object held (HandleObject.shared_frames 9) 7)
unfolding size
insert_object_lem_example =
    insert_object_lem held (HandleObject.shared_frames 9) 7 (omega arith) (omega arith)

found : get held 1 ≡ ok channel
unfolding get lookup
found = refl

duplicate_lem_example : Narrows held 1 channel (bit_and 8 rights_all) (duplicate held 1 8)
unfolding size
duplicate_lem_example =
    duplicate_lem held 1 8 channel (omega arith) (omega arith) found (omega arith)

abbrev others : List MasterCall
others = MasterCall.acquire 5 ∷ MasterCall.release 5 ∷ MasterCall.release 6 ∷ []

master_held_example :
    (owner_after others 3 ≡ 3) × (try_acquire 6 (owner_after others 3) ≡ (3, false))
master_held_example =
    master_held 3 6 others (λ e. absurd (omega arith)) (λ e. absurd (omega arith)) refl
