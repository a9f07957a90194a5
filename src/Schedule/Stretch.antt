-- ===== src/Schedule/Stretch.antt =====
-- That the loop over the shifts of a week finds the longest stretch without one.
use free_sms.Common.{
  ℕ, ◌-◌, ◌≤◌, ◌<◌, ◌≡◌, max, List, [], ◌∷◌, ltb, if◌then◌else◌, All, ◌⊎◌, inl, inr, arith,
}
use free_sms.Schedule.{ScheduledDay, Rest, rest_step, rest_loop, longest_rest}

-- A shift that does not reach into the stretch from `a` to `b`.
abbrev pub LeavesOut : ℕ → ℕ → ScheduledDay → Type 0
LeavesOut a b s = (s.ends ≤ a) ⊎ (b ≤ s.starts)

-- A stretch of the week in which nobody works.
pub record IsFree (start end : ℕ) (shifts : List ScheduledDay) (a b : ℕ) : Type 0 where
  pub after_start : start ≤ a
  pub in_order : a ≤ b
  pub before_end : b ≤ end
  pub out : All (LeavesOut a b) shifts

abbrev pub StartsFrom : ℕ → ScheduledDay → Type 0
StartsFrom b s = b ≤ s.starts

-- Shifts in the order they start.
abbrev pub IsSorted : List ScheduledDay → Type 0
IsSorted [] = Unit
IsSorted (s ∷ ss) = All (StartsFrom s.starts) ss × IsSorted ss

module _ (start end : ℕ) where
  -- What has been looked at allows no longer stretch than the longest, before the cursor.
  abbrev IsBound : Rest → ℕ → ℕ → Type 0
  IsBound r a b = (r.cursor ≤ a) ⊎ (b - a ≤ r.longest)

  rest_step-IsBound :
      (r : Rest) (s : ScheduledDay) (a b : ℕ)
      → LeavesOut a b s
      → IsBound r a b
      → IsBound (rest_step start end r s) a b
  unfolding rest_step
  rest_step-IsBound r s a b out h = ground (arith, out, h)

  rest_loop-IsBound :
      (r : Rest) (ss : List ScheduledDay) (a b : ℕ)
      → All (LeavesOut a b) ss
      → IsBound r a b
      → IsBound (rest_loop start end r ss) a b
  unfolding rest_loop
  rest_loop-IsBound r [] a b out h = h
  rest_loop-IsBound r (s ∷ ss) a b (o, out) h =
      rest_loop-IsBound (rest_step start end r s) ss a b out (rest_step-IsBound r s a b o h)

  pub longest_rest-max :
      (ss : List ScheduledDay) (a b : ℕ)
      → IsFree start end ss a b
      → b - a ≤ longest_rest start end ss
  unfolding longest_rest
  longest_rest-max ss a b free =
      let h =
        rest_loop-IsBound (record { longest = 0; cursor = start }) ss a b free.out
          (inl free.after_start) in
      ground (arith, h, free.before_end)

  -- The shifts that were looked at: they end before the cursor, or begin after the week.
  abbrev IsPast : ℕ → ScheduledDay → Type 0
  IsPast cursor s = (s.ends ≤ cursor) ⊎ (end ≤ s.starts)

  -- Where the longest stretch lies, when there is one: out of the way of what was looked at, and of
  -- what is to come.
  record IsFound (done ss : List ScheduledDay) (r : Rest) : Type 0 where
    from_start : start ≤ r.cursor
    past : All (IsPast r.cursor) done
    found :
        0 < r.longest
        → (a : ℕ) × (b : ℕ) × IsFree start end done a b
          × (b - a ≡ r.longest)
          × All (StartsFrom b) ss

  All-IsPast : (c d : ℕ) (ss : List ScheduledDay) → c ≤ d → All (IsPast c) ss → All (IsPast d) ss
  All-IsPast c d [] h _ = tt
  All-IsPast c d (s ∷ ss) h (inl p, ps) = (inl (omega (arith, h, p)), All-IsPast c d ss h ps)
  All-IsPast c d (s ∷ ss) h (inr p, ps) = (inr p, All-IsPast c d ss h ps)

  -- The stretch from the cursor to a shift that begins after it.
  All-LeavesOut :
      (c b : ℕ) (ss : List ScheduledDay) → b ≤ end → All (IsPast c) ss → All (LeavesOut c b) ss
  All-LeavesOut c b [] h _ = tt
  All-LeavesOut c b (s ∷ ss) h (inl p, ps) = (inl p, All-LeavesOut c b ss h ps)
  All-LeavesOut c b (s ∷ ss) h (inr p, ps) = (inr (omega (arith, h, p)), All-LeavesOut c b ss h ps)

  All-StartsFrom :
      (b c : ℕ) (ss : List ScheduledDay) → b ≤ c → All (StartsFrom c) ss → All (StartsFrom b) ss
  All-StartsFrom b c [] h _ = tt
  All-StartsFrom b c (s ∷ ss) h (p, ps) = (omega (arith, h, p), All-StartsFrom b c ss h ps)

  rest_step-cursor : (r : Rest) (s : ScheduledDay) → r.cursor ≤ (rest_step start end r s).cursor
  unfolding rest_step
  rest_step-cursor r s = ground arith

  rest_step-IsPast :
      (r : Rest) (s : ScheduledDay) → start ≤ r.cursor → IsPast (rest_step start end r s).cursor s
  unfolding rest_step
  rest_step-IsPast r s h = ground (arith, h)

  -- A step keeps the longest, or finds a longer one from the cursor to the shift.
  rest_step-longest :
      (r : Rest) (s : ScheduledDay)
      → let longest = (rest_step start end r s).longest in
        (longest ≡ r.longest)
        ⊎ ((r.cursor ≤ s.starts) × (s.starts ≤ end) × (s.starts - r.cursor ≡ longest))
  unfolding rest_step
  rest_step-longest r s = ground arith

  rest_step-IsFound :
      (done ss : List ScheduledDay) (r : Rest) (s : ScheduledDay)
      → All (StartsFrom s.starts) ss
      → IsFound done (s ∷ ss) r
      → IsFound (s ∷ done) ss (rest_step start end r s)
  rest_step-IsFound done ss r s sorted h = record {
    from_start = omega (arith, h.from_start, rest_step-cursor r s);
    past = (
      rest_step-IsPast r s h.from_start,
      All-IsPast r.cursor (rest_step start end r s).cursor done (rest_step-cursor r s) h.past,
    );
    found = λ some_rest. elim (rest_step-longest r s) [
      | inl same ↦
          (let (a, b, free, long, (here, later)) = h.found (omega (arith, same, some_rest)) in
            (
              a,
              b,
              record {
                after_start = free.after_start;
                in_order = free.in_order;
                before_end = free.before_end;
                out = (inr here, free.out);
              },
              omega (arith, long, same),
              later,
            ))
      | inr (first, last, long) ↦ (
        r.cursor,
        s.starts,
        record {
          after_start = h.from_start;
          in_order = first;
          before_end = last;
          out = (inr (omega arith), All-LeavesOut r.cursor s.starts done last h.past);
        },
        long,
        sorted,
      )
    ];
  }

  onto : List ScheduledDay → List ScheduledDay → List ScheduledDay
  onto [] done = done
  onto (s ∷ ss) done = onto ss (s ∷ done)

  All-onto :
      (P : ScheduledDay → Type 0) (ss done : List ScheduledDay)
      → All P (onto ss done)
      → All P ss × All P done
  unfolding onto
  All-onto P [] done h = (tt, h)
  All-onto P (s ∷ ss) done h =
      let (rest, (here, old)) = All-onto P ss (s ∷ done) h in ((here, rest), old)

  rest_loop-IsFound :
      (done ss : List ScheduledDay) (r : Rest)
      → IsSorted ss
      → IsFound done ss r
      → IsFound (onto ss done) [] (rest_loop start end r ss)
  unfolding onto rest_loop
  rest_loop-IsFound done [] r _ h = h
  rest_loop-IsFound done (s ∷ ss) r (later, sorted) h =
      rest_loop-IsFound (s ∷ done) ss (rest_step start end r s) sorted
        (rest_step-IsFound done ss r s later h)

  last_stretch :
      (r : Rest)
      → let longest = if ltb r.cursor end then max r.longest (end - r.cursor) else r.longest in
        (longest ≡ r.longest) ⊎ ((r.cursor ≤ end) × (end - r.cursor ≡ longest))
  last_stretch r = ground arith

  -- Of shifts in the order they start, the longest stretch is there, when there is any.
  pub longest_rest-IsFree :
      (ss : List ScheduledDay)
      → IsSorted ss
      → 0 < longest_rest start end ss
      → (a : ℕ) × (b : ℕ) × IsFree start end ss a b × (b - a ≡ longest_rest start end ss)
  unfolding longest_rest
  longest_rest-IsFree ss sorted some_rest =
      let r = rest_loop start end (record { longest = 0; cursor = start }) ss in
      let h : IsFound (onto ss []) [] r =
        rest_loop-IsFound [] ss (record { longest = 0; cursor = start }) sorted
          (record {
            from_start = omega arith;
            past = tt;
            found = λ none_yet. absurd (omega (arith, none_yet));
          }) in
      elim (last_stretch r) [
        | inl same ↦
            (let (a, b, free, long, _) = h.found (omega (arith, same, some_rest)) in
              (
                a,
                b,
                record {
                  after_start = free.after_start;
                  in_order = free.in_order;
                  before_end = free.before_end;
                  out = (All-onto (LeavesOut a b) ss [] free.out).0;
                },
                omega (arith, long, same),
              ))
        | inr (last, long) ↦ (
          r.cursor,
          end,
          record {
            after_start = h.from_start;
            in_order = last;
            before_end = omega arith;
            out =
                (All-onto (LeavesOut r.cursor end) ss []
                  (All-LeavesOut r.cursor end (onto ss []) (omega arith) h.past)).0;
          },
          long,
        )
      ]

  -- Of shifts in the order they start: no stretch of the week that no shift reaches into is longer
  -- than the one that is counted, and when that is not nothing there is a stretch as long.
  pub longest_rest-IsLongest :
      (ss : List ScheduledDay)
      → IsSorted ss
      → ((a b : ℕ) → IsFree start end ss a b → b - a ≤ longest_rest start end ss)
        × (0 < longest_rest start end ss
            → (a : ℕ) × (b : ℕ) × IsFree start end ss a b × (b - a ≡ longest_rest start end ss))
  longest_rest-IsLongest ss sorted = (longest_rest-max ss, longest_rest-IsFree ss sorted)
