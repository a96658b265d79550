-- ===== src/Kernel/Pipe/Bound.antt =====
-- kernel/src/pipe.rs: the number of bytes that a pipe holds.
use dunit_os.Prelude.{
  ℕ, ◌-◌, ◌≡◌, ◌≤◌, inl, inr, refl, subst, Bool, true, false, List, ◌++◌, length, take, drop,
  is_empty, Option, none, some, min, arith, length-append, length-take, length-drop, if-cases, ◌==◌,
}
use dunit_os.Prelude.Table.{lookup, remove, lookup-remove, lookup-insert-eq-some}
use dunit_os.Kernel.Pipe
use dunit_os.Kernel.Pipe.{
  Pipe, Registry, PipeRead, PipeWrite, put, retained, retain_found, release_found, released,
  read_found, write_found, pipe_capacity, new_pipe, is_dead,
}
use dunit_os.Kernel.Pipe.Queue.{Op, Trace, step}

-- Every pipe holds at most `pipe_capacity` bytes.
abbrev pub IsBounded : Registry → Type 0
IsBounded reg = (id : ℕ) (p : Pipe) → lookup id reg.pipes ≡ some p → length p.buf ≤ pipe_capacity

put-IsBounded :
    (id : ℕ) (p : Pipe) (reg : Registry)
    → IsBounded reg
    → length p.buf ≤ pipe_capacity
    → IsBounded (put id p reg)
put-IsBounded id p reg v h j q e = elim (lookup-insert-eq-some id j p reg.pipes e) [
  | inl k ↦ subst (λ (u : Pipe). length u.buf ≤ pipe_capacity) k h
  | inr k ↦ v j q k
]

read-IsBounded : (id len : ℕ) (reg : Registry) → IsBounded reg → IsBounded (Pipe.read id len reg).0
unfolding Pipe.read
read-IsBounded id len reg v = go (lookup id reg.pipes) refl
  where
    go : (o : Option Pipe) → lookup id reg.pipes ≡ o → IsBounded (read_found id len reg o).0
    go none e = v
    go (some p) e =
        let n : ℕ = min len (length p.buf) in
        if-cases (λ (r : Registry × PipeRead × List ℕ). IsBounded r.0) (is_empty p.buf) (λ _. v)
          (λ _.
            put-IsBounded id (record p { buf = drop n p.buf }) reg v
              (omega (arith, length-drop n p.buf, v id p e)))

write-IsBounded :
    (id : ℕ) (bytes : List ℕ) (reg : Registry)
    → IsBounded reg
    → IsBounded (Pipe.write id bytes reg).0
unfolding Pipe.write
write-IsBounded id bytes reg v = go (lookup id reg.pipes) refl
  where
    go : (o : Option Pipe) → lookup id reg.pipes ≡ o → IsBounded (write_found id bytes reg o).0
    go none e = v
    go (some p) e =
        let n : ℕ = min (pipe_capacity - length p.buf) (length bytes) in
        if-cases (λ (r : Registry × PipeWrite). IsBounded r.0) (p.read_refs == 0) (λ _. v)
          (λ _.
            if-cases (λ (r : Registry × PipeWrite). IsBounded r.0)
              (pipe_capacity - length p.buf == 0) (λ _. v)
              (λ _.
                put-IsBounded id (record p { buf = p.buf ++ take n bytes }) reg v
                  (omega
                    (arith, length-append p.buf (take n bytes), length-take n bytes, v id p e))))

retain-IsBounded :
    (id : ℕ) (write_end : Bool) (reg : Registry)
    → IsBounded reg
    → IsBounded (Pipe.retain id write_end reg)
unfolding Pipe.retain
retain-IsBounded id write_end reg v = go (lookup id reg.pipes) refl write_end
  where
    go :
        (o : Option Pipe)
        → lookup id reg.pipes ≡ o
        → (b : Bool) → IsBounded (retain_found id b reg o)
    go none e b = v
    go (some p) e true = put-IsBounded id (retained true p) reg v (v id p e)
    go (some p) e false = put-IsBounded id (retained false p) reg v (v id p e)

release-IsBounded :
    (id : ℕ) (write_end : Bool) (reg : Registry)
    → IsBounded reg
    → IsBounded (Pipe.release id write_end reg).0
unfolding Pipe.release
release-IsBounded id write_end reg v = go (lookup id reg.pipes) refl
  where
    gone : IsBounded (record { pipes = remove id reg.pipes; next_id = reg.next_id })
    gone j q e = v j q (ground (arith, lookup-remove id j reg.pipes))

    lowered :
        (p : Pipe) (b : Bool) → lookup id reg.pipes ≡ some p → IsBounded (put id (released b p) reg)
    lowered p true e = put-IsBounded id (released true p) reg v (v id p e)
    lowered p false e = put-IsBounded id (released false p) reg v (v id p e)

    go :
        (o : Option Pipe) → lookup id reg.pipes ≡ o → IsBounded (release_found id write_end reg o).0
    go none e = v
    go (some p) e =
        if-cases IsBounded (is_dead (released write_end p)) (λ _. gone) (λ _. lowered p write_end e)

-- No call on any pipe, and no creation of one, makes any pipe of the registry hold more than its
-- capacity.
pub step-IsBounded :
    (id : ℕ) (op : Op) (t : Trace)
    → IsBounded t.reg
    → IsBounded (step id op t).reg × IsBounded (Pipe.create t.reg).0
unfolding step Pipe.create
step-IsBounded id op t v = (go op, put-IsBounded t.reg.next_id new_pipe t.reg v (omega arith))
  where
    go : (op : Op) → IsBounded (step id op t).reg
    go (Op.read len) = read-IsBounded id len t.reg v
    go (Op.write bytes) = write-IsBounded id bytes t.reg v
    go (Op.retain write_end) = retain-IsBounded id write_end t.reg v
    go (Op.release write_end) = release-IsBounded id write_end t.reg v
