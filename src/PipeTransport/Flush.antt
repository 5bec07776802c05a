-- ===== src/PipeTransport/Flush.antt =====
-- What a flush sends, and in which order it leaves the rest.
use thorium_frugal.Base.{
  ◌-◌, ℕ, zero, suc, ◌≤◌, ◌<◌, ◌≡◌, ap, ◌∙◌, sym, Bool, true, false, List, [], ◌∷◌, ◌++◌, map, some,
  arith, Bytes, length, append_assoc, append-nil, leb, length-append,
}
use thorium_frugal.EventQueue.{dequeue}
use thorium_frugal.EventQueue.Overflow.{enqueue_lem}
use thorium_frugal.PipeTransport.{
  NamedPipeTransportWin, TransportStatus, disconnected, framed, write_file, close, buffer,
  flush_loop, flush_queue,
}

-- A transport by its parts: the capacity, the count of lost events, what waits, what is sent, and the
-- answers to come.
abbrev pub pipe :
    Bool → TransportStatus → ℕ → ℕ → List Bytes → List Bytes → List Bool → NamedPipeTransportWin
pipe is_open status c n waiting sent answers = record {
  is_open = is_open;
  status = status;
  event_queue = record { max_capacity = c; queue = waiting; dropped_count = n };
  sent = sent;
  answers = answers;
}

-- One answer of success for each.
abbrev pub successes : List Bytes → List Bool
successes ps = map (λ _. true) ps

-- An event that is put back where there is room stands behind the others.
pub buffer_room :
    (o : Bool) (s : TransportStatus) (c n : ℕ) (ps sent : List Bytes) (rest : List Bool) (p : Bytes)
    → length ps < c
    → buffer (pipe o s c n ps sent rest) p ≡ some (pipe o s c n (ps ++ p ∷ []) sent rest)
unfolding buffer
buffer_room o s c n ps sent rest p h =
    rw
      (enqueue_lem (record { max_capacity = c; queue = ps; dropped_count = n }) p
        (omega arith, omega arith))
      (let z : length (ps ++ p ∷ []) - c ≡ 0 = omega (arith, length-append ps (p ∷ [])) in
        let e : leb c (length ps) ≡ false = ground arith in rw (z, e))

pub flush_sends :
    (s : TransportStatus) (c n fuel : ℕ) (ps sent : List Bytes) (rest : List Bool)
    → length ps < fuel
    → flush_loop fuel (pipe true s c n ps sent (successes ps ++ rest))
      ≡ some (pipe true s c n [] (sent ++ map framed ps) rest)
unfolding flush_loop dequeue write_file
flush_sends s c n zero ps sent rest h = absurd (omega arith)
flush_sends s c n (suc fuel) [] sent rest h =
    ap (λ v. some (pipe true s c n [] v rest)) (sym (append-nil sent))
flush_sends s c n (suc fuel) (p ∷ ps) sent rest h =
    flush_sends s c n fuel ps (sent ++ framed p ∷ []) rest (omega arith)
    ∙ ap (λ v. some (pipe true s c n [] v rest)) (append_assoc sent (framed p ∷ []) (map framed ps))

flush_fails :
    (s : TransportStatus) (c n fuel : ℕ) (ps : List Bytes) (p : Bytes) (qs sent : List Bytes)
    (rest : List Bool)
    → length (ps ++ p ∷ qs) < fuel
    → length (ps ++ p ∷ qs) ≤ c
    → flush_loop fuel (pipe true s c n (ps ++ p ∷ qs) sent (successes ps ++ false ∷ rest))
      ≡ some (pipe false disconnected c n (qs ++ p ∷ []) (sent ++ map framed ps) rest)
unfolding flush_loop dequeue write_file close
flush_fails s c n zero ps p qs sent rest h le = absurd (omega arith)
flush_fails s c n (suc fuel) [] p qs sent rest h le =
    buffer_room false disconnected c n qs sent rest p (omega arith)
    ∙ ap (λ v. some (pipe false disconnected c n (qs ++ p ∷ []) v rest)) (sym (append-nil sent))
flush_fails s c n (suc fuel) (r ∷ ps) p qs sent rest h le =
    flush_fails s c n fuel ps p qs (sent ++ framed r ∷ []) rest (omega arith) (omega arith)
    ∙ ap (λ v. some (pipe false disconnected c n (qs ++ p ∷ []) v rest))
        (append_assoc sent (framed r ∷ []) (map framed ps))

-- A flush of an open pipe, with no more events than the capacity, sends what waits in its order:
-- all of it where no write fails, and then the queue is empty. Where the write of `p` is the
-- first to fail, the events before `p` are sent and the pipe is closed, nothing is lost, and `p`
-- now stands behind the events that came after it.
pub flush_queue_lem :
    (s : TransportStatus) (c n : ℕ) (ps qs sent : List Bytes) (p : Bytes) (rest : List Bool)
    → length (ps ++ p ∷ qs) ≤ c
    → (flush_queue (pipe true s c n ps sent (successes ps ++ rest))
        ≡ some (pipe true s c n [] (sent ++ map framed ps) rest))
      × (flush_queue (pipe true s c n (ps ++ p ∷ qs) sent (successes ps ++ false ∷ rest))
          ≡ some (pipe false disconnected c n (qs ++ p ∷ []) (sent ++ map framed ps) rest))
unfolding flush_queue
flush_queue_lem s c n ps qs sent p rest h = (
  flush_sends s c n (suc (length ps)) ps sent rest (omega arith),
  flush_fails s c n (suc (length (ps ++ p ∷ qs))) ps p qs sent rest (omega arith) h,
)
