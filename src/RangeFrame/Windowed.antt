-- ===== src/RangeFrame/Windowed.antt =====
-- functions/window/range_frame.go: the window function, with its inner aggregate.
use googlesqlite.Base.{
  Try, failed, done, ℕ, zero, suc, ◌+◌, ◌-◌, Option, none, some, ◌&&◌, List, [], ◌∷◌, ◌++◌, leb,
  if◌then◌else◌, length, take, drop,
}
use googlesqlite.RangeFrame.{Numbers, RangeKey, Config, KeyValue, Failure, to_range_key, frame}

-- An inner aggregate: `Step`, `Inverse` if it has one, and `Done`.
pub record Aggregate (S Row Out E : Type 0) : Type 0 where
  pub fresh : S
  pub step : S → Row → Try E S
  pub inverse : Option (S → Row → Try E S)
  pub finish : S → Try E Out

-- The inner instance with the rows that it has been stepped over.
pub record Inner (S : Type 0) : Type 0 where
  pub state : S
  pub from : ℕ
  pub upto : ℕ

-- `rangeFrameWindow` once `init` has been done.
pub record Window (F R S Row : Type 0) : Type 0 where
  pub config : Config F R
  pub keys : List (RangeKey F R)
  pub rows : List Row
  pub cur : ℕ
  pub inner : Option (Inner S)

-- `rows[a:b]`.
abbrev pub slice : {Row : Type 0} → List Row → ℕ → ℕ → List Row
slice rows a b = take (b - a) (drop a rows)

-- The loops over rows.
unfoldable pub fold : {S Row E : Type 0} → (S → Row → Try E S) → S → List Row → Try E S
fold f s [] = done s
fold f s (r ∷ rs) = elim (f s r) [ failed e ↦ failed e | done s' ↦ fold f s' rs ]

module _ {F R S Row Out E : Type 0} (numbers : Numbers F R) (agg : Aggregate S Row Out E) where
  -- `Step`.
  unfoldable pub step : Window F R S Row → KeyValue F R → Row → Try Failure (Window F R S Row)
  unfolding to_range_key
  step w v r = elim (to_range_key numbers v) [
    | failed e ↦ failed e
    | done k ↦ done (record {
      config = w.config;
      keys = w.keys ++ k ∷ [];
      rows = w.rows ++ r ∷ [];
      cur = w.cur;
      inner = w.inner;
    })
  ]

  unfoldable pub step_rows :
      Window F R S Row → List (KeyValue F R × Row) → Try Failure (Window F R S Row)
  unfolding step
  step_rows w [] = done w
  step_rows w ((v, r) ∷ vs) = elim (step w v r) [ failed e ↦ failed e | done w' ↦ step_rows w' vs ]

  -- The window of a new partition.
  abbrev pub empty : Config F R → Window F R S Row
  empty config = record { config = config; keys = []; rows = []; cur = 0; inner = none }

  -- `Inverse`.
  unfoldable pub inverse : Window F R S Row → Window F R S Row
  inverse w = record {
    config = w.config;
    keys = w.keys;
    rows = w.rows;
    cur = w.cur + 1;
    inner = w.inner;
  }

  -- The end of `Done`.
  unfoldable pub finish_with :
      Window F R S Row → (s e : ℕ) → S → Try E (Window F R S Row × Option Out)
  finish_with w s e st = elim (agg.finish st) [
    | failed x ↦ failed x
    | done out ↦ done (
      record {
        config = w.config;
        keys = w.keys;
        rows = w.rows;
        cur = w.cur;
        inner = some (record { state = st; from = s; upto = e });
      },
      some out,
    )
  ]

  -- A new instance is stepped over the frame.
  unfoldable pub evaluate : Window F R S Row → (s e : ℕ) → Try E (Window F R S Row × Option Out)
  unfolding fold finish_with
  evaluate w s e = elim (fold agg.step agg.fresh (slice w.rows s e)) [
    | failed x ↦ failed x
    | done st ↦ finish_with w s e st
  ]

  -- The old instance is stepped over the new rows, then the rows that have left are taken back.
  unfoldable pub slide :
      Window F R S Row
      → Inner S
      → (S → Row → Try E S)
      → (s e : ℕ) → Try E (Window F R S Row × Option Out)
  unfolding fold finish_with
  slide w i inv s e = elim (fold agg.step i.state (slice w.rows i.upto e)) [
    | failed x ↦ failed x
    | done st ↦ elim (fold inv st (slice w.rows i.from s)) [
      | failed x ↦ failed x
      | done st' ↦ finish_with w s e st'
    ]
  ]

  unfoldable pub locate :
      Window F R S Row
      → Option (Inner S)
      → Option (S → Row → Try E S)
      → (s e : ℕ) → Try E (Window F R S Row × Option Out)
  unfolding evaluate slide
  locate w none inv s e = evaluate w s e
  locate w (some i) none s e = evaluate w s e
  locate w (some i) (some inv) s e =
      if leb i.from s && leb i.upto e && leb s i.upto then slide w i inv s e else evaluate w s e

  -- `Done`; nothing is kept behind an error.
  unfoldable pub done_at : Window F R S Row → Try E (Window F R S Row × Option Out)
  unfolding frame locate
  done_at w =
      if leb (length w.keys) w.cur
      then done (w, none)
      else let (s, e) = frame numbers w.config w.keys w.cur in locate w w.inner agg.inverse s e

  -- What SQLite does with the rows of a partition once they have been stepped: the value of each row,
  -- then one row is taken out of SQLite's own frame.
  unfoldable pub values : (n : ℕ) → Window F R S Row → Try E (List (Option Out))
  unfolding done_at inverse
  values zero w = done []
  values (suc n) w = elim (done_at w) [
    | failed x ↦ failed x
    | done (w', o) ↦ elim (values n (inverse w')) [ failed x ↦ failed x | done os ↦ done (o ∷ os) ]
  ]
