-- ===== src/Limit/Fair.antt =====
-- The waits of a bucket and what it holds (bucket.go, Reserve).
use ia_harness.Base.{ℤ, pos, ◌≤ℤ◌, ◌<ℤ◌, ◌≡◌, refl, true, false, ℕ, ◌<◌, ◌^◌}
use ia_harness.Core.Message.{Time}
use ia_harness.Limit.{
  Floats, Bucket, burst_or_one, new, start, refill, without_token, take_token, reserve,
}

-- What IEEE 754 and the language say of the operations that the bucket makes: the order is total,
-- rounding keeps it, and a float within the range of a duration is converted in order.
pub record IsRounded (f : Floats) : Type 0 where
  pub at_most-refl : (a : f.Float) → f.at_most a a ≡ true
  pub at_most-trans :
      (a b c : f.Float) → f.at_most a b ≡ true → f.at_most b c ≡ true → f.at_most a c ≡ true
  pub at_most-total : (a b : f.Float) → f.at_most a b ≡ false → f.at_most b a ≡ true
  pub minimum-left : (a b : f.Float) → f.at_most (f.minimum a b) a ≡ true
  pub minus-one : (a : f.Float) → f.at_most (f.minus a (f.of_int 1)) a ≡ true
  pub one-one : f.minus (f.of_int 1) (f.of_int 1) ≡ f.of_int 0
  pub minus-falls :
      (a b : f.Float)
      → f.at_most a b ≡ true
      → f.at_most (f.minus (f.of_int 1) b) (f.minus (f.of_int 1) a) ≡ true
  pub over-rises :
      (a b c : f.Float)
      → f.at_most c (f.of_int 0) ≡ false
      → f.at_most a b ≡ true
      → f.at_most (f.over a c) (f.over b c) ≡ true
  pub over-zero :
      (c : f.Float)
      → f.at_most c (f.of_int 0) ≡ false
      → f.at_most (f.of_int 0) (f.over (f.of_int 0) c) ≡ true
  pub per_second :
      (n : ℕ) → 0 < n → f.at_most (f.over (f.of_int n) (f.of_int 60)) (f.of_int 0) ≡ false
  pub times-rises :
      (a b : f.Float)
      → f.at_most a b ≡ true
      → f.at_most (f.times a (f.of_int 1_000_000_000)) (f.times b (f.of_int 1_000_000_000)) ≡ true
  pub times-zero : f.times (f.of_int 0) (f.of_int 1_000_000_000) ≡ f.of_int 0
  pub to_duration-rises :
      (a b : f.Float)
      → f.at_most a b ≡ true
      → f.at_most (f.of_int 0) a ≡ true
      → f.at_most b (f.of_int (2 ^ 62)) ≡ true
      → f.to_duration a ≤ℤ f.to_duration b
  pub to_duration-zero : f.to_duration (f.of_int 0) ≡ pos 0

module _ (f : Floats) (laws : IsRounded f) where
  -- The buckets that `New` and any number of reservations make.
  pub data Reached (burst : ℤ) : Bucket f → Type 0 where
    made : (per_minute : ℤ) → pos 0 <ℤ per_minute → Reached burst (new f per_minute burst)
    reserved : {b : Bucket f} (now : Time) → Reached burst b → Reached burst (reserve f b now).1

  pub record IsSound (burst : ℤ) (b : Bucket f) : Type 0 where
    pub is_limited : b.limited ≡ true
    pub size : b.capacity ≡ f.of_int (burst_or_one burst)
    pub held : f.at_most b.tokens b.capacity ≡ true
    pub fast : f.at_most b.rate (f.of_int 0) ≡ false

  -- The bucket that a reservation finds, its tokens refilled.
  abbrev ready : Bucket f → Time → Bucket f
  ready b now = refill f (start f b now) now

  take_token-left : (b : Bucket f) → (take_token f b).1 ≡ without_token f b
  unfolding take_token
  take_token-left b = refl
