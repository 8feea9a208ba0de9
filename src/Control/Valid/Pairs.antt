-- ===== src/Control/Valid/Pairs.antt =====
-- research_loops/control_store.py: in a valid state the agent profiles of every station resolve.
use mathlib.Core.Path.{subst}
use mathlib.Core.List.{Memᴰ}
use autonomous_research_loop.Prelude.{
  ℕ, suc, ◌+◌, ◌≤◌, ◌<◌, String, ◌≡◌, ◌≢◌, refl, sym, ap, ◌∙◌, Bool, true, false, ◌||◌, Option,
  none, some, List, [], ◌∷◌, ◌++◌, inl, inr, ◌==◌, eq_iff, arith, Bool-cases, Option-cases,
}
use autonomous_research_loop.Prelude.Int.{ℤ}
use autonomous_research_loop.Prelude.Lists.{length, lookup, first, any, all}
use autonomous_research_loop.Control.Types.{Station, Profile, Logical, Resolved, Pair}
use autonomous_research_loop.Control.Store.{ControlError, returned, require}
use autonomous_research_loop.Control.Configuration.{
  is_int, insert_station, sorted_stations, check_stations, is_registered, station_profiles,
  referenced_profiles, validate_configuration, validate_profile, validate_profiles, validate_state,
}
use autonomous_research_loop.Control.Schedule.{station_ids}
use autonomous_research_loop.Control.Machine.{>>=-returned}
use autonomous_research_loop.Control.Profiles.{
  station_at, resolve_profile, resolve_both, resolve_station_pair,
}

require-true : (test : Bool) (e : ControlError) → require test e ≡ returned tt → test ≡ true
require-true true e h = refl
require-true false e h = cc

any-insert_station :
    (p : Station → Bool) (s : Station) (ss : List Station)
    → any p (insert_station s ss) ≡ (p s || any p ss)
unfolding insert_station
any-insert_station p s [] = refl
any-insert_station p s (t ∷ ts) = ground (arith, any-insert_station p s ts)

any-sorted_stations :
    (p : Station → Bool) (ss : List Station) → any p (sorted_stations ss) ≡ any p ss
unfolding sorted_stations
any-sorted_stations p [] = refl
any-sorted_stations p (s ∷ ss) =
    any-insert_station p s (sorted_stations ss) ∙ ap (λ b. p s || b) (any-sorted_stations p ss)

length-insert_station :
    (s : Station) (ss : List Station) → length (insert_station s ss) ≡ suc (length ss)
unfolding insert_station
length-insert_station s [] = refl
length-insert_station s (t ∷ ts) = ground (arith, length-insert_station s ts)

length-sorted_stations : (ss : List Station) → length (sorted_stations ss) ≡ length ss
unfolding sorted_stations
length-sorted_stations [] = refl
length-sorted_stations (s ∷ ss) =
    length-insert_station s (sorted_stations ss) ∙ ap (λ n. suc n) (length-sorted_stations ss)

-- The checked list has the ids from `e` on, one after the other.
check_stations-any :
    (e n : ℕ) (before : Option ℤ) (ss : List Station)
    → check_stations true e before ss ≡ returned tt
    → e ≤ n
    → n < e + length ss
    → any (λ (t : Station). is_int n t.id) ss ≡ true
unfolding check_stations
check_stations-any e n before [] h low high = absurd (omega arith)
check_stations-any e n before (s ∷ ss) h low high =
    let here : is_int e s.id ≡ true = ground (arith, h) in
    let later : check_stations true (suc e) (some s.interval_seconds) ss ≡ returned tt =
      ground (arith, h) in
    elim (Bool-cases (is_int n s.id)) [
      | inl this ↦ ground (arith, this)
      | inr not_this ↦
          let apart : e ≢ n =
            λ same. ground (arith, subst (λ x. is_int x s.id ≡ true) same here, not_this) in
          ground (
            arith,
            check_stations-any (suc e) n (some s.interval_seconds) ss later
                (omega (arith, apart, low)) (omega (arith, high)),
          )
    ]

any-first :
    (p : Station → Bool) (ss : List Station)
    → any p ss ≡ true
    → (t : Station) × (first p ss ≡ some t)
any-first p [] h = cc
any-first p (s ∷ ss) h = elim (Bool-cases (p s)) [
  | inl e ↦ (s, ground (arith, e))
  | inr e ↦ let (t, found) = any-first p ss (ground (arith, h, e)) in (t, ground (arith, e, found))
]

-- What holds of all referenced profiles holds of those of a station that is found.
pub first-station_profiles :
    (q : String → Bool) (p : Station → Bool) (ss : List Station) (t : Station)
    → all q (station_profiles ss) ≡ true
    → first p ss ≡ some t
    → (q t.primary_profile ≡ true) × (q t.secondary_profile ≡ true)
first-station_profiles q p [] t h found = cc
first-station_profiles q p (s ∷ ss) t h found = elim (Bool-cases (p s)) [
  | inl e ↦ (ground (arith, h, found, e), ground (arith, h, found, e))
  | inr e ↦ first-station_profiles q p ss t (ground (arith, h)) (ground (arith, found, e))
]

validate_profiles-lookup :
    (id : String) (p : Profile) (ps : List (String × Profile))
    → validate_profiles ps ≡ returned tt
    → lookup id ps ≡ some p
    → validate_profile id p ≡ returned tt
unfolding validate_profiles lookup
validate_profiles-lookup id p [] h found = cc
validate_profiles-lookup id p ((k, q) ∷ ps) h found =
    let (u, here, later) = >>=-returned (validate_profile k q) _ h in
    elim (Bool-cases (k == id)) [
      | inl e ↦
          let same : q ≡ p = ground (arith, found, e) in
          subst (λ x. validate_profile x p ≡ returned tt) ((eq_iff k id).0 e)
            (subst (λ x. validate_profile k x ≡ returned tt) same here)
      | inr e ↦ validate_profiles-lookup id p ps later (ground (arith, found, e))
    ]

range-bounds : (n : ℕ) → Memᴰ n station_ids → (1 ≤ n) × (n < 1 + 5)
range-bounds n (Memᴰ.head e) = (ground (arith, e), ground (arith, e))
range-bounds n (Memᴰ.tail (Memᴰ.head e)) = (ground (arith, e), ground (arith, e))
range-bounds n (Memᴰ.tail (Memᴰ.tail (Memᴰ.head e))) = (ground (arith, e), ground (arith, e))
range-bounds n (Memᴰ.tail (Memᴰ.tail (Memᴰ.tail (Memᴰ.head e)))) =
    (ground (arith, e), ground (arith, e))
range-bounds n (Memᴰ.tail (Memᴰ.tail (Memᴰ.tail (Memᴰ.tail (Memᴰ.head e))))) =
    (ground (arith, e), ground (arith, e))
range-bounds n (Memᴰ.tail (Memᴰ.tail (Memᴰ.tail (Memᴰ.tail (Memᴰ.tail m))))) = elim m [ ]

-- A valid configuration has a station of each number, and the profiles that it names are registered.
module _ (s : Logical) (valid : validate_state s ≡ returned tt) where
  abbrev Profiles : Type 0
  Profiles = List (String × Profile)

  pub parts :
      (validate_configuration true s.configuration ≡ returned tt)
      × (validate_profiles s.work.agent_profiles ≡ returned tt)
      × (all (is_registered s.work.agent_profiles) (referenced_profiles s.configuration) ≡ true)
  unfolding validate_state
  parts =
      let (u, one, later) = >>=-returned (validate_configuration true s.configuration) _ valid in
      let (v, two, last) = >>=-returned (validate_profiles s.work.agent_profiles) _ later in
      (one, two, ground (arith, last))

  pub station-found :
      (n : ℕ) → Memᴰ n station_ids → (t : Station) × (station_at n s.configuration ≡ some t)
  unfolding validate_configuration
  station-found n m =
      let stations = s.configuration.stations in
      let configured = parts.0 in
      let five : length stations ≡ 5 = ground (arith, configured) in
      let checked : check_stations true 1 none (sorted_stations stations) ≡ returned tt =
        ground (arith, configured) in
      let (low, high) = range-bounds n m in
      any-first (λ (t : Station). is_int n t.id) stations
        (sym (any-sorted_stations (λ (t : Station). is_int n t.id) stations)
          ∙ check_stations-any 1 n none (sorted_stations stations) checked low
              (subst (λ k. n < 1 + k) (sym (length-sorted_stations stations ∙ five)) high))

  profile-resolves :
      (id : String)
      → is_registered s.work.agent_profiles id ≡ true
      → (p : Resolved) × (resolve_profile id s ≡ returned p)
  unfolding resolve_profile
  profile-resolves id h = elim (Option-cases (lookup id s.work.agent_profiles)) [
    | inl missing ↦ absurd (ground (arith, missing, h))
    | inr (p, found) ↦ (
      record { id = id; profile = p },
      ground (arith, found, validate_profiles-lookup id p s.work.agent_profiles parts.1 found),
    )
  ]

  pub both-resolve :
      (p q : String)
      → is_registered s.work.agent_profiles p ≡ true
      → is_registered s.work.agent_profiles q ≡ true
      → (r : Pair) × (resolve_both p q s ≡ returned r)
  both-resolve p q hp hq =
      let (a, ra) = profile-resolves p hp in
      let (b, rb) = profile-resolves q hq in
      (record { primary = a; secondary = b }, ground (arith, ra, rb))

  pub all-append-left :
      (q : String → Bool) (xs ys : List String) → all q (xs ++ ys) ≡ true → all q xs ≡ true
  all-append-left q [] ys h = refl
  all-append-left q (x ∷ xs) ys h = ground (arith, h, all-append-left q xs ys)

  pub all-append-right :
      (q : String → Bool) (xs ys : List String) → all q (xs ++ ys) ≡ true → all q ys ≡ true
  all-append-right q [] ys h = h
  all-append-right q (x ∷ xs) ys h = all-append-right q xs ys (ground (arith, h))

  pub station-pair :
      (n : ℕ) → Memᴰ n station_ids → (r : Pair) × (resolve_station_pair n s ≡ returned r)
  unfolding resolve_station_pair referenced_profiles
  station-pair n m =
      let (t, found) = station-found n m in
      let (hp, hq) =
        first-station_profiles (is_registered s.work.agent_profiles)
          (λ (u : Station). is_int n u.id) s.configuration.stations t
          (all-append-left (is_registered s.work.agent_profiles)
            (station_profiles s.configuration.stations) _ parts.2)
          found in
      let (r, both) = both-resolve t.primary_profile t.secondary_profile hp hq in
      (r, ground (arith, found, both))
