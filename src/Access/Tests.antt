-- ===== src/Access/Tests.antt =====
-- Runs and witnesses for the access cache.
use chat_pulse.Prelude.{not, is_some, ℕ, ◌≤◌, ◌≡◌, refl, true, false, some, [], ◌∷◌, length, arith}
use chat_pulse.Prelude.Int.{pos}
use chat_pulse.Access.{TtlPolicy, ttl_of, Key, Cache, answered, lookup, same_key, enter, loaded}
use chat_pulse.Access.Loads.{hit_after_load}
use chat_pulse.Access.Sections.{here, next, loads, cache_is_bounded}
use chat_pulse.Access.Flight.{NotYet, Joins, one_load_at_a_time}

abbrev empty : Cache ℕ
empty = record { entries = []; inflight = []; next_task = 0 }

-- A status is fresh for a minute, its absence for ten seconds.
abbrev ttls : TtlPolicy ℕ
ttls = record {
  is_negative = λ value. not (is_some value);
  positive_ttl = pos 60;
  negative_ttl = pos 10;
  stale_grace = pos 300;
}

-- The status of user 3 in chat 7, and of user 4.
abbrev ann : Key
ann = 1 ∷ 7 ∷ 3 ∷ []

abbrev bob : Key
bob = 1 ∷ 7 ∷ 4 ∷ []

-- One entry is room enough: the second load evicts the first.
abbrev first : Cache ℕ
first = (loaded 1 empty ann 0 true (some 20) ttls 100).0

abbrev second : Cache ℕ
second = (loaded 1 first bob 1 true (some 30) ttls 110).0

hit_after_load_example :
    (enter second bob 170).1 ≡ answered (record { value = some 30; fresh = true; stale = false })
unfolding ttl_of
hit_after_load_example =
    hit_after_load 1 first bob 1 true (some 30) ttls 110 170 (omega arith) (omega arith)

cache_is_bounded_example : length second.entries ≤ 1
cache_is_bounded_example =
    cache_is_bounded 1 (λ k t c. Unit) empty second (omega arith)
      (next (next here (loads ann 0 true (some 20) ttls 100 tt))
        (loads bob 1 true (some 30) ttls 110 tt))

-- A call begins to load the status of user 3, and another load ends.
abbrev loading : Cache ℕ
loading = record empty { inflight = (ann, 5) ∷ []; next_task = 6 }

flying : lookup ann loading.inflight ≡ some 5
unfolding lookup same_key
flying = refl

apart : NotYet ann 5 bob 4 true
unfolding same_key
apart = refl

one_load_at_a_time_example :
    Joins ann 5 (enter (loaded 8 loading bob 4 true (some 30) ttls 110).0 ann 120).1
one_load_at_a_time_example =
    one_load_at_a_time ann 5 8 loading ((loaded 8 loading bob 4 true (some 30) ttls 110).0) 120
      flying (next here (loads bob 4 true (some 30) ttls 110 apart))
