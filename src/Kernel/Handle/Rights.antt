-- ===== src/Kernel/Handle/Rights.antt =====
-- kernel/src/handle.rs: the rights of a duplicate, and the owner of a master.
use dunit_os.Prelude.{
  ℕ, ◌+◌, ◌^◌, ◌≡◌, ◌≢◌, ◌≤◌, ◌<◌, ◌↔◌, ◌⊎◌, inl, inr, refl, sym, ◌∙◌, ap, subst, Bool, true, false,
  ◌&&◌, List, [], ◌∷◌, Option, some, bit_and, arith, ◌!=◌, if◌then◌else◌,
}
use dunit_os.Prelude.Table.{size}
use dunit_os.Prelude.Results.{Result, ok, err, is_ok}
use dunit_os.Kernel.Handle.{
  HandleEntry, HandleTable, HandleError, insert_object, duplicate, duplicate_of, copied, get,
  require, demand, rights_all, complement32, try_acquire, release_master,
}
use dunit_os.Kernel.Handle.Masks.{mask_narrow, mask_le, mask_twice, ones}
use dunit_os.Kernel.Handle.Fresh.{Publishes, insert_object_lem}

-- The rights of the entry that a duplicate with `new_rights` holds pass only tests that `old` passes.
narrow :
    (old new_rights required : ℕ)
    → old < 2 ^ 32
    → bit_and (bit_and new_rights rights_all) (complement32 old) ≡ 0
    → bit_and (bit_and (bit_and new_rights rights_all) rights_all) required ≡ required
    → bit_and old required ≡ required
unfolding ones
narrow old new_rights required h e k =
    let cut : ℕ = bit_and new_rights rights_all in
    let le : cut ≤ rights_all = mask_le 7 new_rights in
    mask_narrow 32 cut old required (omega arith) (omega arith) e
      (subst (λ x. bit_and x required ≡ required) (mask_twice 7 new_rights) k)

-- A check passes just if the rights of the entry hold all that are required.
require_lem :
    (t : HandleTable) (handle required : ℕ) (entry : HandleEntry)
    → get t handle ≡ ok entry
    → (is_ok (require t handle required) ≡ true) ↔ (bit_and entry.rights required ≡ required)
unfolding require
require_lem t handle required entry e =
    subst (λ r. (is_ok (demand required r) ≡ true) ↔ (bit_and entry.rights required ≡ required))
      (sym e) (ground arith)

-- What a duplication comes to: a refusal, for rights that the original lacks, that changes nothing; or, for
-- rights that it holds, a fresh handle with just these on an equal copy of the object.
abbrev pub Narrows :
    HandleTable → ℕ → HandleEntry → ℕ → Option (HandleTable × Result HandleError ℕ) → Type 0
Narrows t handle entry cut r =
    ((r ≡ some (t, err HandleError.access_denied)) × (bit_and cut (complement32 entry.rights) ≢ 0))
    ⊎ ((t' : HandleTable) × (fresh : ℕ) × (r ≡ some (t', ok fresh))
        × (bit_and cut (complement32 entry.rights) ≡ 0)
        × (get t fresh ≡ err HandleError.bad_handle)
        × (get t' handle ≡ ok entry)
        × ((e : HandleEntry) × (get t' fresh ≡ ok e) × (e.object ≡ entry.object) × (e.rights ≡ cut))
        × ((required : ℕ)
            → is_ok (require t' fresh required) ≡ true
            → is_ok (require t handle required) ≡ true))

-- Duplicating a handle of a table that is not full always ends: it is refused, with nothing changed, just if
-- the rights asked for include one that the handle lacks; else it gives a fresh handle with just these
-- rights, on an equal copy of the object, that passes a check of rights only if the original does, and the
-- original stays.
pub duplicate_lem :
    (t : HandleTable) (handle new_rights : ℕ) (entry : HandleEntry)
    → t.next < 2 ^ 32
    → size t.entries + 2 ≤ 2 ^ 32
    → get t handle ≡ ok entry
    → entry.rights < 2 ^ 32
    → Narrows t handle entry (bit_and new_rights rights_all) (duplicate t handle new_rights)
unfolding duplicate ones
duplicate_lem t handle new_rights entry h k e small =
    subst (λ r. Narrows t handle entry cut (duplicate_of t cut r)) (sym e)
      (go (bit_and cut (complement32 entry.rights) != 0) refl)
  where
    cut : ℕ
    cut = bit_and new_rights rights_all

    made :
        (r : Option (HandleTable × ℕ))
        → Publishes t entry.object cut r
        → bit_and cut (complement32 entry.rights) ≡ 0
        → Narrows t handle entry cut (copied r)
    made r (t', fresh, same, nonzero, absent, present, others) z = inr (
      t',
      fresh,
      ap copied same,
      z,
      absent,
      others handle (λ c. cc (c, absent, e)) ∙ e,
      (_, present, refl, mask_twice 7 new_rights),
      λ required p. (require_lem t handle required entry e).1 (
          narrow entry.rights new_rights required small z
            ((require_lem t' fresh required _ present).0 p)),
    )

    go :
        (b : Bool)
        → (bit_and cut (complement32 entry.rights) != 0) ≡ b
        → Narrows t handle entry cut (
            if b
            then some (t, err HandleError.access_denied)
            else copied (insert_object t entry.object cut))
    go true p = inl (refl, ground arith)
    go false p =
        made (insert_object t entry.object cut) (insert_object_lem t entry.object cut h k)
          (ground arith)

-- A call on a master's cell, by a process.
pub data MasterCall : Type 0 where
  acquire : (pid : ℕ) → MasterCall
  release : (pid : ℕ) → MasterCall

abbrev pub caller : MasterCall → ℕ
caller (MasterCall.acquire pid) = pid
caller (MasterCall.release pid) = pid

unfoldable pub owner_after : List MasterCall → ℕ → ℕ
owner_after [] owner = owner
owner_after (MasterCall.acquire pid ∷ calls) owner = owner_after calls (try_acquire pid owner).0
owner_after (MasterCall.release pid ∷ calls) owner = owner_after calls (release_master pid owner)

abbrev pub avoids : ℕ → List MasterCall → Bool
avoids pid [] = true
avoids pid (call ∷ calls) = caller call != pid && avoids pid calls

-- A process that owns a master, and is not process 0, keeps it through any calls of other processes, and
-- no other process acquires it after them.
pub master_held :
    (pid other : ℕ) (calls : List MasterCall)
    → pid ≢ 0
    → other ≢ pid
    → avoids pid calls ≡ true
    → (owner_after calls pid ≡ pid) × (try_acquire other (owner_after calls pid) ≡ (pid, false))
unfolding owner_after try_acquire release_master
master_held pid other [] h ne a = (refl, ground arith)
master_held pid other (MasterCall.acquire q ∷ calls) h ne a =
    let keeps : (try_acquire q pid).0 ≡ pid = ground arith in
    subst
      (λ o. (owner_after calls o ≡ pid) × (try_acquire other (owner_after calls o) ≡ (pid, false)))
      (sym keeps) (master_held pid other calls h ne (ground arith))
master_held pid other (MasterCall.release q ∷ calls) h ne a =
    let keeps : release_master q pid ≡ pid = ground arith in
    subst
      (λ o. (owner_after calls o ≡ pid) × (try_acquire other (owner_after calls o) ≡ (pid, false)))
      (sym keeps) (master_held pid other calls h ne (ground arith))
