-- ===== src/Tests/Quota.antt =====
-- The store and the resolver at concrete calls.
use hp_guardian.Prelude.{
  ℕ, ◌+◌, ◌≤◌, false, none, some, List, [], ◌∷◌, ◌≡◌, refl, ◌⊎◌, arith, length, ◌==◌, nat_eq,
  if◌then◌else◌, ◌&&◌,
}
use hp_guardian.Prelude.Map.{get, insert, contains_key, IsMap}
use hp_guardian.Models.{allow, log, Rule, RateLimit, PolicyCall, default_call, default_condition}
use hp_guardian.Engine.{Engine, with_version, resolve_call_with_selected_rule_at}
use hp_guardian.State.{
  RateLimitKey, key_eq, InMemoryRateLimitStore, default_store, check_and_consume, in_memory,
  consume, count_in, make_room, RateLimitedPolicyStore, resolve, key_of, decided,
}
use hp_guardian.State.Consume.{granted, count_in-consume}
use hp_guardian.State.History.{Call, after, used, grants, IsAged, after-IsAged, empty-IsAged}
use hp_guardian.State.Quota.{quota_bound}
use hp_guardian.State.Capacity.{check_and_consume-capacity, full_store_forgets}
use hp_guardian.State.Answers.{Answers, check_and_consume-Answers}
use hp_guardian.Engine.Limited.{Governs, Governed}
use hp_guardian.State.Resolver.{Concludes, resolve-cases}

abbrev two_calls : RateLimit
two_calls = record { max_calls = 2; window_seconds = 10 }

abbrev allow_read : Rule
allow_read = record {
  action = allow;
  target = ("tool", "read") ∷ [];
  condition = default_condition;
  rule_index = 0;
}

abbrev limited_engine : Engine
limited_engine = with_version (allow_read ∷ []) log 2 ((0, two_calls) ∷ [])

abbrev read_call : PolicyCall
read_call = record default_call { agent = some "bot"; tool = some "read" }

abbrev limited_store : RateLimitedPolicyStore
limited_store = record { engine = limited_engine; policy_digest = "d" }

abbrev bot : RateLimitKey
bot = key_of "d" 0 read_call

abbrev other : RateLimitKey
other = key_of "e" 0 read_call

abbrev three_reads : List Call
three_reads =
    record { key = bot; limit = two_calls; now = 11 }
    ∷ record { key = other; limit = two_calls; now = 12 }
    ∷ record { key = bot; limit = two_calls; now = 13 }
    ∷ record { key = bot; limit = two_calls; now = 14 }
    ∷ []

quota_bound_example : used bot 10 default_store + grants bot 10 three_reads default_store ≤ 2
quota_bound_example =
    quota_bound 10 (omega arith) bot 10 2 three_reads default_store
      (refl, (refl, (refl, (refl, tt))))
      ((λ e. omega arith), ((λ e. omega arith), ((λ e. omega arith), ((λ e. omega arith), tt))))
      (empty-IsAged 10 default_store refl) (unfold count_in get in omega arith)

-- The three calls of the key take the two slots.
grants_three : grants bot 10 three_reads default_store ≡ 2
unfolding grants check_and_consume consume count_in get contains_key make_room insert
grants_three = refl

-- One key's bucket, and room for no other key.
abbrev full_store : InMemoryRateLimitStore
full_store = record {
  inner = record { last_now = some 11; buckets = (bot, (10, 2)) ∷ [] };
  poisoned = false;
  max_keys = 1;
}

abbrev short_limit : RateLimit
short_limit = record { max_calls = 1; window_seconds = 4 }

one_bucket-IsMap : IsMap full_store.inner.buckets
unfolding contains_key
one_bucket-IsMap = (refl, tt)

full_store_forgets_example :
    get (check_and_consume other short_limit 13 full_store).0.inner.buckets bot ≡ none
unfolding contains_key get
full_store_forgets_example =
    full_store_forgets other bot short_limit 13 10 2 full_store one_bucket-IsMap refl refl
      (omega arith) (omega arith) refl (omega arith) refl (λ e. absurd (omega (arith, e)))

check_and_consume-capacity_example :
    length (check_and_consume other short_limit 13 full_store).0.inner.buckets ≤ 1
check_and_consume-capacity_example =
    check_and_consume-capacity other short_limit 13 full_store (omega arith) (omega arith)

check_and_consume-Answers_example :
    Answers bot two_calls 13 full_store (check_and_consume bot two_calls 13 full_store).1
check_and_consume-Answers_example =
    check_and_consume-Answers bot two_calls 13 full_store (omega arith)

count_in-consume_example :
    count_in 10 (
      get
        (consume 1 bot two_calls 10
          (count_in 10 (get full_store.inner.buckets bot))
          full_store.inner.buckets).0
        bot)
    ≡ (if bot == bot
          && granted
              (consume 1 bot two_calls 10
                (count_in 10 (get full_store.inner.buckets bot))
                full_store.inner.buckets).1
        then count_in 10 (get full_store.inner.buckets bot) + 1
        else count_in 10 (get full_store.inner.buckets bot))
count_in-consume_example =
    count_in-consume 1 bot bot two_calls 10 full_store.inner.buckets one_bucket-IsMap

after-IsAged_example :
    IsAged 10 (after (record { key = bot; limit = two_calls; now = 11 }) default_store)
after-IsAged_example =
    after-IsAged 10 (omega arith) (record { key = bot; limit = two_calls; now = 11 }) refl
      default_store (empty-IsAged 10 default_store refl)

resolve-cases_example :
    let (d, selected) = resolve_call_with_selected_rule_at limited_engine read_call 5 in
    ((¬ Governed limited_engine d selected)
      × (resolve in_memory limited_store read_call 5 11 default_store ≡ (default_store, decided d)))
    ⊎ ((index : ℕ) × (limit : RateLimit) × Governs limited_engine d selected index limit
        × (let (s', checked) =
              in_memory.check (key_of "d" index read_call) limit 11 default_store in
            let (after, answer) = resolve in_memory limited_store read_call 5 11 default_store in
            (after ≡ s') × Concludes d checked answer))
resolve-cases_example = resolve-cases in_memory limited_store read_call 5 11 default_store
