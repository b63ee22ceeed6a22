-- ===== src/Dog/Chunks.antt =====
-- dog_command_forwarder.cpp: how the bytes of a connection arrive, in one piece or in several.
use mathlib.Core.List.{append_assoc}
use rtc_framework.Base.{
  ℕ, zero, suc, ◌<◌, ◌≡◌, refl, sym, ap, subst, ◌∙◌, Bool, true, false, List, [], ◌++◌, ◌==◌,
  length, length-append, Bool-cases, arith, inl, inr, if◌then◌else◌,
}
use rtc_framework.Dog.Types.{Json, Impl}
use rtc_framework.Dog.Connection.{handle_connection_failure}
use rtc_framework.Dog.Incoming.{
  Reading, need_more, broken, got, read_frame, on_reading, handle_frame, begin_read_frame, on_bytes,
}
use rtc_framework.Dog.Buffer.{with_buffer, failure-with_buffer, handle_frame-with_buffer}
use rtc_framework.Dog.Readings.{Extends, Shortens, read_frame-Extends, read_frame-Shortens}
use rtc_framework.Dog.Idle.{with_reading, failure-with_reading, handle_frame-IsIdle}
use rtc_framework.Dog.Fuel.{
  failure_stale, pauses, begin_paused, begin_closed, begin_reading, reading_agree, fuel_enough,
}

-- The state, without the bytes of a connection that is no longer current.
abbrev pub seen : ℕ → Impl → Impl
seen generation s = if generation == s.connection_generation then s else with_buffer [] s

module _ (json : Json) (generation : ℕ) where
  abbrev IsCurrent : Impl → Type 0
  IsCurrent s = (generation == s.connection_generation) ≡ true

  -- A frame that is being read goes on with these bytes.
  abbrev resume : List ℕ → Impl → Impl
  resume bytes s =
      on_reading json (begin_read_frame json (suc (length bytes)) generation) generation
        (read_frame bytes) (with_buffer bytes s)

  abbrev whole : List ℕ → Impl → Impl
  whole ys s =
      begin_read_frame json (suc (length (s.incoming_buffer ++ ys))) generation
        (with_buffer (s.incoming_buffer ++ ys) s)

  -- Bytes that come on another connection, between two frames, and while one is being read.
  later_stale :
      (ys : List ℕ) (s : Impl)
      → (generation == s.connection_generation) ≡ false
      → on_bytes json generation ys s ≡ s
  unfolding on_bytes
  later_stale ys s e = rw e refl

  later_idle :
      (ys : List ℕ) (s : Impl)
      → IsCurrent s
      → s.reading ≡ false
      → on_bytes json generation ys s ≡ with_buffer (s.incoming_buffer ++ ys) s
  unfolding on_bytes
  later_idle ys s e i = rw (e, i) refl

  later_reading :
      (ys : List ℕ) (s : Impl)
      → IsCurrent s
      → s.reading ≡ true
      → on_bytes json generation ys s ≡ resume (s.incoming_buffer ++ ys) s
  unfolding on_bytes
  later_reading ys s e i = rw (e, i) refl

  seen_stale :
      (bytes : List ℕ) (s : Impl)
      → (generation == s.connection_generation) ≡ false
      → seen generation (with_buffer bytes s) ≡ seen generation s
  seen_stale bytes s e = rw e refl

  -- The bytes that come after a failure, and those that were there, are not seen.
  after_failure :
      (ys bytes : List ℕ) (s : Impl)
      → IsCurrent s
      → seen generation (on_bytes json generation ys (handle_connection_failure generation s))
        ≡ seen generation (handle_connection_failure generation (with_buffer bytes s))
  after_failure ys bytes s e =
      let t : Impl = handle_connection_failure generation s in
      let stale = failure_stale generation s e in
      ap (seen generation) (later_stale ys t stale)
      ∙ sym
          (ap (seen generation) (failure-with_buffer bytes generation s) ∙ seen_stale bytes t stale)

  reading_flag :
      (b : Bool) (next : Impl → Impl) (r : Reading) (s : Impl)
      → IsCurrent s
      → on_reading json next generation r (with_reading b s) ≡ on_reading json next generation r s
  unfolding on_reading
  reading_flag b next need_more s e = refl
  reading_flag b next broken s e = failure-with_reading b generation s e
  reading_flag b next (got opcode payload rest) s e = refl

  abbrev Chunks : ℕ → Type 0
  Chunks fuel =
      (ys : List ℕ) (s : Impl)
      → length s.incoming_buffer < fuel
      → s.reading ≡ false
      → seen generation (on_bytes json generation ys (begin_read_frame json fuel generation s))
        ≡ seen generation (whole ys s)

  resumed_later :
      (fuel : ℕ) (ys : List ℕ) (s : Impl) (r : Reading)
      → read_frame s.incoming_buffer ≡ r
      → Chunks fuel
      → length s.incoming_buffer < suc fuel
      → IsCurrent s
      → seen generation (
          on_bytes json generation ys
            (on_reading json (begin_read_frame json fuel generation) generation r s))
        ≡ seen generation (resume (s.incoming_buffer ++ ys) s)
  unfolding on_reading
  resumed_later fuel ys s need_more e ih h c =
      let bytes : List ℕ = s.incoming_buffer ++ ys in
      ap (seen generation) (
        later_reading ys (with_reading true s) c refl
        ∙ reading_flag true (begin_read_frame json (suc (length bytes)) generation)
            (read_frame bytes) (with_buffer bytes s) c)
  resumed_later fuel ys s broken e ih h c =
      let bytes : List ℕ = s.incoming_buffer ++ ys in
      let reads : read_frame bytes ≡ broken =
        subst (λ r. Extends ys r (read_frame bytes)) e (read_frame-Extends ys s.incoming_buffer) in
      after_failure ys bytes s c ∙ ap (seen generation) (rw reads refl)
  resumed_later fuel ys s (got opcode payload rest) e ih h c =
      let bytes : List ℕ = s.incoming_buffer ++ ys in
      let idle : Impl = with_reading false s in
      let t : Impl = handle_frame json generation opcode payload idle in
      let reads : read_frame bytes ≡ got opcode payload (rest ++ ys) =
        subst (λ r. Extends ys r (read_frame bytes)) e (read_frame-Extends ys s.incoming_buffer) in
      let shorter : length rest < length s.incoming_buffer =
        subst (Shortens (length s.incoming_buffer)) e (read_frame-Shortens s.incoming_buffer) in
      let moved : handle_frame json generation opcode payload (with_buffer rest idle)
          ≡ with_buffer rest t =
        handle_frame-with_buffer rest json generation opcode payload idle in
      let moved_all : handle_frame json generation opcode payload (with_buffer (rest ++ ys) idle)
          ≡ with_buffer (rest ++ ys) t =
        handle_frame-with_buffer (rest ++ ys) json generation opcode payload idle in
      let right : resume bytes s ≡ whole ys (with_buffer rest t) =
        rw (reads, moved_all)
          (fuel_enough json generation _ _ (with_buffer (rest ++ ys) t)
            (omega (arith, shorter, length-append rest ys, length-append s.incoming_buffer ys))
            (omega arith)) in
      rw moved (
        ih ys (with_buffer rest t) (omega (arith, shorter, h))
          (handle_frame-IsIdle json generation opcode payload idle refl))
      ∙ sym (ap (seen generation) right)

  resume-whole :
      (ys : List ℕ) (s : Impl)
      → pauses json generation s ≡ false
      → s.socket_open ≡ true
      → resume (s.incoming_buffer ++ ys) s ≡ whole ys s
  resume-whole ys s p o =
      let bytes : List ℕ = s.incoming_buffer ++ ys in
      reading_agree json generation (begin_read_frame json (suc (length bytes)) generation)
        (begin_read_frame json (length bytes) generation) (read_frame bytes) (with_buffer bytes s)
        (length bytes) (read_frame-Shortens bytes)
        (λ t l.
          fuel_enough json generation (suc (length bytes)) (length bytes) t (omega (arith, l)) l)
      ∙ sym (begin_reading json generation (length bytes) (with_buffer bytes s) p o)

  chunks_paused :
      (fuel : ℕ) (ys : List ℕ) (s : Impl)
      → pauses json generation s ≡ true
      → s.reading ≡ false
      → seen generation (on_bytes json generation ys (begin_read_frame json fuel generation s))
        ≡ seen generation (whole ys s)
  chunks_paused fuel ys s e i =
      let all : Impl = with_buffer (s.incoming_buffer ++ ys) s in
      let now = begin_paused json generation fuel s e in
      let then_all = begin_paused json generation (suc (length all.incoming_buffer)) all e in
      rw now (elim (Bool-cases (generation == s.connection_generation)) [
        | inl c ↦ ap (seen generation) (later_idle ys s c i ∙ sym then_all)
        | inr c ↦
            ap (seen generation) (later_stale ys s c)
            ∙ sym (ap (seen generation) then_all ∙ seen_stale (s.incoming_buffer ++ ys) s c)
      ])

  chunks : (fuel : ℕ) → Chunks fuel
  chunks zero ys s h i = absurd (omega (arith, h))
  chunks (suc fuel) ys s h i = elim (Bool-cases (pauses json generation s)) [
    | inl p ↦ chunks_paused (suc fuel) ys s p i
    | inr p ↦ elim (Bool-cases s.socket_open) [
      | inr c ↦ rw (begin_closed json generation fuel s p c) (
          after_failure ys (s.incoming_buffer ++ ys) s (ground (arith, p))
          ∙ sym (
              ap (seen generation)
                (begin_closed json generation _ (with_buffer (s.incoming_buffer ++ ys) s) p c)))
      | inl o ↦ rw (begin_reading json generation fuel s p o) (
          resumed_later fuel ys s (read_frame s.incoming_buffer) refl (chunks fuel) h
            (ground (arith, p))
          ∙ ap (seen generation) (resume-whole ys s p o))
    ]
  ]

  -- It makes no difference whether bytes arrive in one piece or in two, wherever the stream is cut and
  -- in whatever state: the frames that are handled, and all the members, are the same, except for the
  -- buffer of a connection that is no longer current.
  pub pieces_do_not_matter :
      (xs ys : List ℕ) (s : Impl)
      → seen generation (on_bytes json generation ys (on_bytes json generation xs s))
        ≡ seen generation (on_bytes json generation (xs ++ ys) s)
  pieces_do_not_matter xs ys s =
      let both = append_assoc s.incoming_buffer xs ys in
      let s1 : Impl = with_buffer (s.incoming_buffer ++ xs) s in
      elim (Bool-cases (generation == s.connection_generation)) [
        | inr e ↦ rw (later_stale xs s e, later_stale (xs ++ ys) s e, later_stale ys s e) refl
        | inl e ↦ elim (Bool-cases s.reading) [
          | inr i ↦
              rw (later_idle xs s e i, later_idle (xs ++ ys) s e i, later_idle ys s1 e i, both) refl
          | inl i ↦
              rw (later_reading xs s e i, later_reading (xs ++ ys) s e i)
                (resumed_later (suc (length s1.incoming_buffer)) ys s1
                    (read_frame s1.incoming_buffer) refl (chunks (suc (length s1.incoming_buffer)))
                    (omega arith) e
                  ∙ ap (λ b. seen generation (resume b s)) both)
        ]
      ]
