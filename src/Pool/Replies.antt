-- ===== src/Pool/Replies.antt =====
-- `eatPipelineReplies` (RedisStore.cpp).
use sync_server.Base.{
  is_some, Option, none, some, ℕ, zero, suc, ◌<◌, ◌≡◌, refl, ◌∙◌, true, false, Bool, arith,
}
use sync_server.Pool.{go_on, eat_pipeline_replies}
use sync_server.Redis.{Redis, Reply}

module _ {W : Type 0} (redis : Redis W) (c : redis.Conn) where
  -- The network after `n` replies have been read.
  unfoldable pub after : ℕ → W → W
  after zero w = w
  after (suc n) w = after n (redis.get_reply c w).1

  abbrev pub is_there : ℕ → W → Bool
  is_there n w = is_some (redis.get_reply c (after n w)).0

  go_on-eq :
      (r : Option Reply × W) (rest : W → Bool × W)
      → (is_some r.0 ≡ true → go_on redis r rest ≡ rest r.1)
        × (is_some r.0 ≡ false → go_on redis r rest ≡ (false, r.1))
  unfolding go_on
  go_on-eq (some reply, w) rest = (λ e. refl, λ e. absurd (cc))
  go_on-eq (none, w) rest = (λ e. absurd (cc), λ e. refl)

  -- If every reply is there, all are read, and no more.
  pub eat_pipeline_replies_all :
      (cnt : ℕ) (w : W)
      → ((i : ℕ) → i < cnt → is_there i w ≡ true)
      → eat_pipeline_replies redis cnt c w ≡ (true, after cnt w)
  unfolding eat_pipeline_replies after
  eat_pipeline_replies_all zero w there = refl
  eat_pipeline_replies_all (suc cnt) w there =
      (go_on-eq (redis.get_reply c w) (eat_pipeline_replies redis cnt c)).0 (there 0 (omega arith))
      ∙ eat_pipeline_replies_all cnt (redis.get_reply c w).1
          (λ i small. there (suc i) (omega arith))

  -- If the reply behind the first `n` is not there, it is the last that is read, and the result is
  -- false.
  pub eat_pipeline_replies_stops :
      (n cnt : ℕ) (w : W)
      → n < cnt
      → ((i : ℕ) → i < n → is_there i w ≡ true)
      → is_there n w ≡ false
      → eat_pipeline_replies redis cnt c w ≡ (false, after (suc n) w)
  unfolding eat_pipeline_replies after
  eat_pipeline_replies_stops n zero w small there missing = absurd (omega arith)
  eat_pipeline_replies_stops zero (suc cnt) w small there missing =
      (go_on-eq (redis.get_reply c w) (eat_pipeline_replies redis cnt c)).1 missing
  eat_pipeline_replies_stops (suc n) (suc cnt) w small there missing =
      (go_on-eq (redis.get_reply c w) (eat_pipeline_replies redis cnt c)).0 (there 0 (omega arith))
      ∙ eat_pipeline_replies_stops n cnt (redis.get_reply c w).1 (omega arith)
          (λ i few. there (suc i) (omega arith)) missing
