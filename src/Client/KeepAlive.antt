-- ===== src/Client/KeepAlive.antt =====
-- When the keepalive of pkg/baichuan/client.go gives the connection up.
use reolinkproxy.Base.{
  ℕ, zero, suc, ◌+◌, ◌≤◌, ◌<◌, ◌≡◌, refl, ◌∙◌, List, [], ◌∷◌, ◌++◌, Bool, true, false, ◌||◌, ◌↔◌,
  All, if◌then◌else◌, leb, Bool-cases, inl, inr, arith,
}
use reolinkproxy.Client.{
  Ping, answered, late, missed, Beat, hears, ticks, keep_alive, count_failure, is_silent,
  max_ping_failures, uid_silence_limit,
}

-- The pings begin with that many misses.
abbrev pub begins_missed : ℕ → List Ping → Bool
begins_missed zero pings = true
begins_missed (suc n) [] = false
begins_missed (suc n) (missed ∷ pings) = begins_missed n pings
begins_missed (suc n) (answered ∷ pings) = false
begins_missed (suc n) (late ∷ pings) = false

-- Somewhere in the pings there are three misses in a row.
abbrev pub three_missed : List Ping → Bool
three_missed [] = false
three_missed (p ∷ pings) = begins_missed 3 (p ∷ pings) || three_missed pings

-- The pings of the ticks.
abbrev pub pings_of : List Beat → List Ping
pings_of [] = []
pings_of (hears t ∷ beats) = pings_of beats
pings_of (ticks now ping ∷ beats) = ping ∷ pings_of beats

-- The count of the failures, on the pings alone.
abbrev counted : ℕ → List Ping → Bool
counted failures [] = false
counted failures (answered ∷ pings) = counted 0 pings
counted failures (late ∷ pings) = counted 0 pings
counted failures (missed ∷ pings) =
    let rest = counted (failures + 1) pings in
    if leb max_ping_failures (failures + 1) then true else rest

keep_alive-counted :
    (started last failures : ℕ) (beats : List Beat)
    → keep_alive false started last failures beats ≡ counted failures (pings_of beats)
unfolding keep_alive count_failure
keep_alive-counted started last failures [] = refl
keep_alive-counted started last failures (hears t ∷ beats) =
    keep_alive-counted started t failures beats
keep_alive-counted started last failures (ticks now answered ∷ beats) =
    keep_alive-counted started last 0 beats
keep_alive-counted started last failures (ticks now late ∷ beats) =
    keep_alive-counted started last 0 beats
keep_alive-counted started last failures (ticks now missed ∷ beats) =
    rw (keep_alive-counted started last (failures + 1) beats) refl

counted_from :
    (pings : List Ping)
    → (counted 0 pings ≡ three_missed pings)
      × (counted 1 pings ≡ (begins_missed 2 pings || three_missed pings))
      × (counted 2 pings ≡ (begins_missed 1 pings || three_missed pings))
counted_from [] = (refl, refl, refl)
counted_from (answered ∷ pings) = let (a, b, c) = counted_from pings in (a, a, a)
counted_from (late ∷ pings) = let (a, b, c) = counted_from pings in (a, a, a)
counted_from (missed ∷ []) = (refl, refl, refl)
counted_from (missed ∷ answered ∷ pings) =
    let (a, b, c) = counted_from (answered ∷ pings) in (b, c, refl)
counted_from (missed ∷ late ∷ pings) = let (a, b, c) = counted_from (late ∷ pings) in (b, c, refl)
counted_from (missed ∷ missed ∷ pings) =
    let (a, b, c) = counted_from (missed ∷ pings) in (b, c, refl)

-- The datagrams arrive at times that do not go back.
abbrev pub InOrder : ℕ → List Beat → Type 0
InOrder from [] = Unit {0}
InOrder from (hears t ∷ beats) = (from ≤ t) × InOrder t beats
InOrder from (ticks now ping ∷ beats) = InOrder from beats

-- A datagram is longer ago than the limit.
abbrev pub IsOld : ℕ → Beat → Type 0
IsOld now (hears t) = t + uid_silence_limit < now
IsOld now (ticks t ping) = Unit {0}

-- At some tick the start, the last datagram before it and all datagrams since are longer ago than that.
abbrev pub FallsSilent : ℕ → ℕ → List Beat → Type 0
FallsSilent started last beats =
    (before : List Beat) × (now : ℕ) × (ping : Ping) × (behind : List Beat) × (beats
      ≡ before ++ ticks now ping ∷ behind)
    × (started + uid_silence_limit < now)
    × (last + uid_silence_limit < now)
    × All (IsOld now) before

is_silent-FallsSilent :
    (started last failures : ℕ) (beats : List Beat)
    → InOrder last beats
    → keep_alive true started last failures beats ≡ true
    → FallsSilent started last beats
unfolding keep_alive is_silent
is_silent-FallsSilent started last failures [] o e = absurd (cc e)
is_silent-FallsSilent started last failures (hears t ∷ beats) (o, os) e =
    let (before, now, ping, behind, split, start, heard, old) =
      is_silent-FallsSilent started t failures beats os e in
    (
      hears t ∷ before,
      now,
      ping,
      behind,
      rw split refl,
      start,
      omega (arith, o, heard),
      (heard, old),
    )
is_silent-FallsSilent started last failures (ticks now ping ∷ beats) o e =
    elim (Bool-cases (is_silent started last now)) [
      | inl silent ↦
          ([], now, ping, beats, refl, ground (arith, silent), ground (arith, silent), tt)
      | inr heard ↦
          let (before, now', ping', behind, split, start, quiet, old) =
            is_silent-FallsSilent started last failures beats o (ground (arith, heard, e)) in
          (ticks now ping ∷ before, now', ping', behind, rw split refl, start, quiet, (tt, old))
    ]

FallsSilent-is_silent :
    (started last failures : ℕ) (before : List Beat) (now : ℕ) (ping : Ping) (behind : List Beat)
    → started + uid_silence_limit < now
    → last + uid_silence_limit < now
    → All (IsOld now) before
    → keep_alive true started last failures (before ++ ticks now ping ∷ behind) ≡ true
unfolding keep_alive is_silent
FallsSilent-is_silent started last failures [] now ping behind start quiet old =
    ground (arith, start, quiet)
FallsSilent-is_silent started last failures (hears t ∷ before) now ping behind start quiet
      (heard, old) =
    FallsSilent-is_silent started t failures before now ping behind start heard old
FallsSilent-is_silent started last failures (ticks t p ∷ before) now ping behind start quiet
      (u, old) =
    ground
      (arith, FallsSilent-is_silent started last failures before now ping behind start quiet old)

-- On TCP the keepalive shuts the client down exactly when three pings in a row brought no byte at all;
-- and over a UID session, where the datagrams' times do not go back, exactly when at some tick the
-- start of the loop and every datagram, the last one before the start too, are more than 15 seconds ago.
pub keep_alive_lem :
    (started last : ℕ) (beats : List Beat)
    → InOrder last beats
    → (keep_alive false started last 0 beats ≡ three_missed (pings_of beats))
      × ((keep_alive true started last 0 beats ≡ true) ↔ FallsSilent started last beats)
keep_alive_lem started last beats o = (
  keep_alive-counted started last 0 beats ∙ (counted_from (pings_of beats)).0,
  (
    is_silent-FallsSilent started last 0 beats o,
    λ h.
        let (before, now, ping, behind, split, start, quiet, old) = h in
        rw split (FallsSilent-is_silent started last 0 before now ping behind start quiet old),
  ),
)
