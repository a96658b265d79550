-- ===== src/Kernel/Pipe/Queue.antt =====
-- kernel/src/pipe.rs: the bytes of one pipe, through any sequence of calls on it.
use dunit_os.Prelude.{
  ℕ, ◌-◌, ◌≡◌, refl, Bool, true, false, List, [], ◌∷◌, ◌++◌, length, take, drop, is_empty, Option,
  none, some, min, arith, append-nil, append_assoc, take-append-drop, if-cases, ◌==◌,
}
use dunit_os.Prelude.Table.{lookup, remove, lookup-insert, lookup-remove}
use dunit_os.Kernel.Pipe
use dunit_os.Kernel.Pipe.{
  Pipe, Registry, PipeRead, PipeWrite, put, retained, retain_found, release_found, released,
  read_found, write_found, pipe_capacity, new_pipe, is_dead,
}

pub data Op : Type 0 where
  read : (len : ℕ) → Op
  write : List ℕ → Op
  retain : (write_end : Bool) → Op
  release : (write_end : Bool) → Op

-- The registry, and all bytes that were written to a pipe and read from it.
pub record Trace : Type 0 where
  pub reg : Registry
  pub written : List ℕ
  pub got : List ℕ

abbrev pub accepted : PipeWrite → List ℕ → List ℕ
accepted (PipeWrite.wrote n) bytes = take n bytes
accepted PipeWrite.would_block bytes = []
accepted PipeWrite.broken bytes = []

unfoldable pub step : ℕ → Op → Trace → Trace
step id (Op.read len) t =
    let r = Pipe.read id len t.reg in record t { reg = r.0; got = t.got ++ r.2 }
step id (Op.write bytes) t =
    let r = Pipe.write id bytes t.reg in
    record t { reg = r.0; written = t.written ++ accepted r.1 bytes }
step id (Op.retain write_end) t = record t { reg = Pipe.retain id write_end t.reg }
step id (Op.release write_end) t = record t { reg = (Pipe.release id write_end t.reg).0 }

unfoldable pub run : ℕ → List Op → Trace → Trace
unfolding step
run id [] t = t
run id (op ∷ ops) t = run id ops (step id op t)

-- The pipe holds what was in it and was written to it, less what was read from it.
record Balanced (id : ℕ) (start : List ℕ) (t : Trace) : Type 0 where
  balance : (p : Pipe) → lookup id t.reg.pipes ≡ some p → start ++ t.written ≡ t.got ++ p.buf

lookup-put : (id : ℕ) (p : Pipe) (reg : Registry) → lookup id (put id p reg).pipes ≡ some p
lookup-put id p reg = ground (arith, lookup-insert id id p reg.pipes)

-- The pipe `id` is written again.
put-Balanced :
    (id : ℕ) (start : List ℕ) (p : Pipe) (reg : Registry) (written got : List ℕ)
    → start ++ written ≡ got ++ p.buf
    → Balanced id start (record { reg = put id p reg; written = written; got = got })
put-Balanced id start p reg written got h = record {
  balance = λ q e. let k : q ≡ p = cc (lookup-put id p reg, e) in rw k h;
}

read-Balanced :
    (id len : ℕ) (start : List ℕ) (t : Trace)
    → Balanced id start t
    → Balanced id start (step id (Op.read len) t)
unfolding step Pipe.read
read-Balanced id len start t v = go (lookup id t.reg.pipes) refl
  where
    go :
        (o : Option Pipe)
        → lookup id t.reg.pipes ≡ o
        → Balanced id start
            (let r = read_found id len t.reg o in record t { reg = r.0; got = t.got ++ r.2 })
    go none e = record { balance = λ q k. absurd (cc) }
    go (some p) e =
        let n : ℕ = min len (length p.buf) in
        if-cases
          (λ (r : Registry × PipeRead × List ℕ).
            Balanced id start (record t { reg = r.0; got = t.got ++ r.2 }))
          (is_empty p.buf) (λ _. record { balance = λ q k. cc (v.balance q k, append-nil t.got) })
          (λ _.
            put-Balanced id start (record p { buf = drop n p.buf }) t.reg t.written
              (t.got ++ take n p.buf)
              (cc (
                v.balance p e,
                take-append-drop n p.buf,
                append_assoc t.got (take n p.buf) (drop n p.buf),
              )))

write-Balanced :
    (id : ℕ) (bytes : List ℕ) (start : List ℕ) (t : Trace)
    → Balanced id start t
    → Balanced id start (step id (Op.write bytes) t)
unfolding step Pipe.write
write-Balanced id bytes start t v = go (lookup id t.reg.pipes) refl
  where
    go :
        (o : Option Pipe)
        → lookup id t.reg.pipes ≡ o
        → Balanced id start (
            let r = write_found id bytes t.reg o in
            record t { reg = r.0; written = t.written ++ accepted r.1 bytes })
    go none e = record { balance = λ q k. absurd (cc) }
    go (some p) e =
        let n : ℕ = min (pipe_capacity - length p.buf) (length bytes) in
        let same : Balanced id start (record t { written = t.written ++ [] }) = record {
          balance = λ q k. cc (v.balance q k, append-nil t.written);
        } in
        if-cases
          (λ (r : Registry × PipeWrite).
            Balanced id start (record t { reg = r.0; written = t.written ++ accepted r.1 bytes }))
          (p.read_refs == 0) (λ _. same)
          (λ _.
            if-cases
              (λ (r : Registry × PipeWrite).
                Balanced id start
                  (record t { reg = r.0; written = t.written ++ accepted r.1 bytes }))
              (pipe_capacity - length p.buf == 0) (λ _. same)
              (λ _.
                put-Balanced id start (record p { buf = p.buf ++ take n bytes }) t.reg
                  (t.written ++ take n bytes) t.got
                  (cc (
                    v.balance p e,
                    append_assoc start t.written (take n bytes),
                    append_assoc t.got p.buf (take n bytes),
                  ))))

retain-Balanced :
    (id : ℕ) (write_end : Bool) (start : List ℕ) (t : Trace)
    → Balanced id start t
    → Balanced id start (step id (Op.retain write_end) t)
unfolding step Pipe.retain
retain-Balanced id write_end start t v = go (lookup id t.reg.pipes) refl
  where
    kept : (b : Bool) (p : Pipe) → (retained b p).buf ≡ p.buf
    kept true p = refl
    kept false p = refl

    go :
        (o : Option Pipe)
        → lookup id t.reg.pipes ≡ o
        → Balanced id start (record t { reg = retain_found id write_end t.reg o })
    go none e = v
    go (some p) e =
        put-Balanced id start (retained write_end p) t.reg t.written t.got
          (rw (kept write_end p) (v.balance p e))

release-Balanced :
    (id : ℕ) (write_end : Bool) (start : List ℕ) (t : Trace)
    → Balanced id start t
    → Balanced id start (step id (Op.release write_end) t)
unfolding step Pipe.release
release-Balanced id write_end start t v = go (lookup id t.reg.pipes) refl
  where
    kept : (b : Bool) (p : Pipe) → (released b p).buf ≡ p.buf
    kept true p = refl
    kept false p = refl

    gone :
        Balanced id start
          (record t { reg = record { pipes = remove id t.reg.pipes; next_id = t.reg.next_id } })
    gone = record { balance = λ q k. absurd (ground (arith, lookup-remove id id t.reg.pipes)) }

    go :
        (o : Option Pipe)
        → lookup id t.reg.pipes ≡ o
        → Balanced id start (record t { reg = (release_found id write_end t.reg o).0 })
    go none e = v
    go (some p) e =
        if-cases (λ reg. Balanced id start (record { reg = reg; written = t.written; got = t.got }))
          (is_dead (released write_end p)) (λ _. gone)
          (λ _.
            put-Balanced id start (released write_end p) t.reg t.written t.got
              (rw (kept write_end p) (v.balance p e)))

run-Balanced :
    (id : ℕ) (ops : List Op) (start : List ℕ) (t : Trace)
    → Balanced id start t
    → Balanced id start (run id ops t)
unfolding run
run-Balanced id [] start t v = v
run-Balanced id (Op.read len ∷ ops) start t v =
    run-Balanced id ops start _ (read-Balanced id len start t v)
run-Balanced id (Op.write bytes ∷ ops) start t v =
    run-Balanced id ops start _ (write-Balanced id bytes start t v)
run-Balanced id (Op.retain write_end ∷ ops) start t v =
    run-Balanced id ops start _ (retain-Balanced id write_end start t v)
run-Balanced id (Op.release write_end ∷ ops) start t v =
    run-Balanced id ops start _ (release-Balanced id write_end start t v)

-- Through any sequence of reads, writes, retains and releases of a pipe, as long as it exists at the
-- end: what was in it, followed by all bytes that writes accepted, is all bytes that reads returned,
-- followed by what is in it. No byte is lost, doubled or put out of order.
pub run_fifo :
    (id : ℕ) (ops : List Op) (reg : Registry) (p p' : Pipe)
    → lookup id reg.pipes ≡ some p
    → lookup id (run id ops (record { reg = reg; written = []; got = [] })).reg.pipes ≡ some p'
    → p.buf ++ (run id ops (record { reg = reg; written = []; got = [] })).written
      ≡ (run id ops (record { reg = reg; written = []; got = [] })).got ++ p'.buf
run_fifo id ops reg p p' e h =
    (run-Balanced id ops p.buf (record { reg = reg; written = []; got = [] })
        (record {
          balance = λ q k. let same : q ≡ p = cc (e, k) in cc (append-nil p.buf, same);
        })).balance
      p' h
