-- ===== src/Kernel/Ipc/Queues.antt =====
-- kernel/src/ipc/mod.rs: what sends and receives make of the queues.
use dunit_os.Prelude.{
  ℕ, ◌≡◌, ◌≢◌, ◌⊎◌, inl, inr, ap, sym, subst, ◌≤◌, refl, Bool, true, false, not, ◌||◌, List, [],
  ◌∷◌, ◌++◌, length, take, drop, replicate, is_empty, min, arith, ltb, leb, ◌==◌, if◌then◌else◌,
  length-append, if-cases,
}
use dunit_os.Prelude.Table.{lookup-insert}
use dunit_os.Prelude.Results.{Result, ok, err}
use dunit_os.Kernel.Ipc.{
  IpcManager, Message, MessageType, IpcError, queue_of, put_queue, send_message, send_bytes,
  with_data, recv_from, recv_bytes_with_sender, max_message_size, max_queue_messages,
}

-- What a write of one queue leaves in each.
pub queue_of-put_queue :
    (pid j : ℕ) (q : List Message) (m : IpcManager)
    → queue_of (put_queue pid q m) j ≡ (if pid == j then q else queue_of m j)
unfolding queue_of put_queue
queue_of-put_queue pid j q m = ground (arith, lookup-insert pid j q m.message_queues)

-- What a send makes of the queues.
abbrev pub Enqueues : ℕ → Message → IpcManager → IpcManager × Result IpcError (Unit {0}) → Type 0
Enqueues target msg m (m', r) =
    ((r ≡ ok tt)
      × (queue_of m' target ≡ queue_of m target ++ (msg ∷ []))
      × (length (queue_of m' target) ≤ max_queue_messages)
      × ((j : ℕ) → j ≢ target → queue_of m' j ≡ queue_of m j))
    ⊎ (((e : IpcError) × (r ≡ err e)) × ((j : ℕ) → queue_of m' j ≡ queue_of m j))

other-queue :
    (pid j : ℕ) (q : List Message) (m : IpcManager)
    → j ≢ pid
    → queue_of (put_queue pid q m) j ≡ queue_of m j
other-queue pid j q m h = ground (arith, queue_of-put_queue pid j q m)

own-queue : (pid : ℕ) (q : List Message) (m : IpcManager) → queue_of (put_queue pid q m) pid ≡ q
own-queue pid q m = ground (arith, queue_of-put_queue pid pid q m)

same-queue :
    (pid j : ℕ) (m : IpcManager) → queue_of (put_queue pid (queue_of m pid) m) j ≡ queue_of m j
same-queue pid j m = ground (arith, queue_of-put_queue pid j (queue_of m pid) m)

take_front : (xs ys : List ℕ) → take (length xs) (take (length xs) xs ++ ys) ≡ xs
take_front [] ys = refl
take_front (x ∷ xs) ys = ap (◌∷◌ x) (take_front xs ys)

-- A message that is sent is queued behind the target's other messages, which are then at most 128 in
-- all, and no other queue changes; when the send fails, no queue changes.
pub send_message_lem :
    (process_exists : ℕ → Bool) (target : ℕ) (msg : Message) (m : IpcManager)
    → Enqueues target msg m (send_message process_exists target msg m)
unfolding send_message
send_message_lem process_exists target msg m =
    if-cases (Enqueues target msg m) (not (process_exists target))
      (λ _. inr ((IpcError.invalid_target, refl), λ j. refl))
      (λ _.
        if-cases (Enqueues target msg m) (leb max_queue_messages (length (queue_of m target)))
          (λ _. inr ((IpcError.queue_full, refl), λ j. same-queue target j m))
          (λ h.
            let q : List Message = queue_of m target ++ (msg ∷ []) in
            let own = own-queue target q m in
            inl (
              refl,
              own,
              rw own (ground (arith, length-append (queue_of m target) (msg ∷ []))),
              λ j k. other-queue target j q m k,
            )))

-- What a receive makes of the queues and of `out`.
abbrev pub Receives :
    ℕ → List ℕ → IpcManager → IpcManager × Result IpcError (ℕ × ℕ) × List ℕ → Type 0
Receives pid out m (m', r, out') =
    ((msg : Message) × (queue_of m pid ≡ msg ∷ queue_of m' pid)
      × (r ≡ ok (msg.sender, msg.len))
      × (out' ≡ take msg.len msg.bytes ++ drop msg.len out)
      × ((j : ℕ) → j ≢ pid → queue_of m' j ≡ queue_of m j))
    ⊎ (((e : IpcError) × (r ≡ err e)) × (m' ≡ m) × (out' ≡ out))

-- A receive takes the oldest message of the process and copies its bytes to the start of `out`, and no
-- other queue changes; when it fails, nothing changes.
pub recv_bytes_lem :
    (pid : ℕ) (out : List ℕ) (m : IpcManager)
    → Receives pid out m (recv_bytes_with_sender pid out m)
unfolding recv_bytes_with_sender
recv_bytes_lem pid out m = go (queue_of m pid) refl
  where
    go : (q : List Message) → queue_of m pid ≡ q → Receives pid out m (recv_from pid out m q)
    go [] e = inr ((IpcError.no_message, refl), refl, refl)
    go (msg ∷ q) e =
        if-cases (Receives pid out m) (ltb (length out) msg.len)
          (λ _. inr ((IpcError.message_too_large, refl), refl, refl))
          (λ _. inl (msg, cc (e, own-queue pid q m), refl, refl, λ j h. other-queue pid j q m h))

abbrev pub carrier : ℕ → List ℕ → Message
carrier sender bytes = with_data sender (MessageType.window_close 0) bytes

carrier_lem :
    (sender : ℕ) (bytes : List ℕ)
    → length bytes ≤ max_message_size
    → ((carrier sender bytes).sender ≡ sender)
      × ((carrier sender bytes).len ≡ length bytes)
      × (take (length bytes) (carrier sender bytes).bytes ≡ bytes)
unfolding with_data
carrier_lem sender bytes h =
    let k : min (length bytes) max_message_size ≡ length bytes = omega arith in
    (refl, k, rw k (take_front bytes (drop (length bytes) (replicate max_message_size 0))))

queued :
    (process_exists : ℕ → Bool) (sender target : ℕ) (bytes : List ℕ) (m : IpcManager)
    → process_exists target ≡ true
    → queue_of m target ≡ []
    → 1 ≤ length bytes
    → length bytes ≤ max_message_size
    → queue_of (send_bytes process_exists sender target bytes m).0 target
      ≡ carrier sender bytes ∷ []
unfolding send_bytes send_message
queued process_exists sender target bytes m alive idle h1 h2 =
    let fits : (is_empty bytes || ltb max_message_size (length bytes)) ≡ false =
      ground (arith, nonempty bytes h1) in
    rw (fits, alive, idle) (own-queue target (carrier sender bytes ∷ []) m)
  where
    nonempty : (xs : List ℕ) → 1 ≤ length xs → is_empty xs ≡ false
    nonempty [] h = absurd (omega arith)
    nonempty (x ∷ xs) h = refl

-- Up to 256 bytes, not none, that are sent to a process that exists and has no messages come out of its
-- next receive, if `out` has room for them, with their sender and length, and behind them `out` is as
-- it was.
pub send-recv :
    (process_exists : ℕ → Bool) (sender target : ℕ) (bytes out : List ℕ) (m : IpcManager)
    → process_exists target ≡ true
    → queue_of m target ≡ []
    → 1 ≤ length bytes
    → length bytes ≤ max_message_size
    → length bytes ≤ length out
    → ((recv_bytes_with_sender target out (send_bytes process_exists sender target bytes m).0).1
        ≡ ok (sender, length bytes))
      × ((recv_bytes_with_sender target out (send_bytes process_exists sender target bytes m).0).2
          ≡ bytes ++ drop (length bytes) out)
unfolding recv_bytes_with_sender
send-recv process_exists sender target bytes out m alive idle h1 h2 h3 =
    subst
      (λ q. Delivers (recv_from target out (send_bytes process_exists sender target bytes m).0 q))
      (sym (queued process_exists sender target bytes m alive idle h1 h2))
      (if-cases Delivers (ltb (length out) (carrier sender bytes).len)
        (λ e. absurd (ground (arith, c.1))) (λ e. (rw (c.0, c.1) refl, rw (c.1, c.2) refl)))
  where
    Delivers : IpcManager × Result IpcError (ℕ × ℕ) × List ℕ → Type 0
    Delivers (m', r, out') =
        (r ≡ ok (sender, length bytes)) × (out' ≡ bytes ++ drop (length bytes) out)

    c :
        ((carrier sender bytes).sender ≡ sender)
        × ((carrier sender bytes).len ≡ length bytes)
        × (take (length bytes) (carrier sender bytes).bytes ≡ bytes)
    c = carrier_lem sender bytes h2
