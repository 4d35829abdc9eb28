-- ===== src/MatchRecognize/Vm/Accept.antt =====
-- What a compiled pattern accepts, with no reference to threads, priorities or stamps: the
-- executions of the instructions of internal/match_recognize.go.
use googlesqlite.Base.{ℕ, ◌+◌, ◌*◌, ◌<◌, ◌≡◌, some, true, List, [], ◌∷◌, get_elem?}
use googlesqlite.MatchRecognize.Pattern.{op_var, op_split, op_jmp, op_start, op_end, op_match}
use googlesqlite.MatchRecognize.Vm.{Machine}

-- From instruction `pc` at row `pos` some execution maps the rows up to `e` to the variables `vs`
-- and ends in a match.
pub data Accepts (m : Machine) : ℕ → ℕ → List ℕ → ℕ → Type 0 where
  here :
      {pc pos : ℕ} {vs : List ℕ} {e : ℕ}
      → get_elem? m.insts pc ≡ some op_match
      → vs ≡ []
      → e ≡ pos
      → Accepts m pc pos vs e
  take :
      {pc pos e : ℕ} {ws : List ℕ} (v : ℕ) (vs : List ℕ)
      → get_elem? m.insts pc ≡ some (op_var v)
      → pos < m.n
      → get_elem? m.bits (pos * m.nv + v) ≡ some true
      → ws ≡ v ∷ vs
      → Accepts m (pc + 1) (pos + 1) vs e
      → Accepts m pc pos ws e
  jump :
      {pc pos e : ℕ} {vs : List ℕ} (x : ℕ)
      → get_elem? m.insts pc ≡ some (op_jmp x)
      → Accepts m x pos vs e
      → Accepts m pc pos vs e
  split_x :
      {pc pos e : ℕ} {vs : List ℕ} (x y : ℕ)
      → get_elem? m.insts pc ≡ some (op_split x y)
      → Accepts m x pos vs e
      → Accepts m pc pos vs e
  split_y :
      {pc pos e : ℕ} {vs : List ℕ} (x y : ℕ)
      → get_elem? m.insts pc ≡ some (op_split x y)
      → Accepts m y pos vs e
      → Accepts m pc pos vs e
  at_start :
      {pc pos e : ℕ} {vs : List ℕ}
      → get_elem? m.insts pc ≡ some op_start
      → pos ≡ 0
      → Accepts m (pc + 1) pos vs e
      → Accepts m pc pos vs e
  at_end :
      {pc pos e : ℕ} {vs : List ℕ}
      → get_elem? m.insts pc ≡ some op_end
      → pos ≡ m.n
      → Accepts m (pc + 1) pos vs e
      → Accepts m pc pos vs e
