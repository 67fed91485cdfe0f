-- ===== src/KeepAlive/Chain.antt =====
-- How the times at which hellos were sent follow each other, between a client and its server's task.
use reechat_base.Base.{ℕ, ◌+◌, ◌≤◌, List, [], ◌∷◌, ◌++◌, arith}
use reechat_base.KeepAlive.{Within}

module _ (period delay : ℕ) where
  -- Each hello was sent soon after the one before it, and the last of them when the client's note says.
  abbrev pub Chain : ℕ → ℕ → List ℕ → Type 0
  Chain last before [] = last ≤ before
  Chain last before (sent ∷ more) = (sent ≤ before + 10000 + period) × Chain last sent more

  pub Chain-le : (last m n : ℕ) (es : List ℕ) → m ≤ n → Chain last m es → Chain last n es
  Chain-le last m n [] le c = omega (arith, c, le)
  Chain-le last m n (e ∷ es) le (c, cs) = (omega (arith, c, le), cs)

  pub Chain-append :
      (last now before : ℕ) (es : List ℕ)
      → now ≤ last + 10000 + period
      → Chain last before es
      → Chain now before (es ++ now ∷ [])
  Chain-append last now before [] le c = (omega (arith, c, le), omega arith)
  Chain-append last now before (e ∷ es) le (c, cs) = (c, Chain-append last now e es le cs)

  pub Within-append :
      (now : ℕ) (es : List ℕ)
      → Within period delay now es
      → Within period delay now (es ++ now ∷ [])
  Within-append now [] w = (omega arith, tt)
  Within-append now (e ∷ es) (w, ws) = (w, Within-append now es ws)

  -- What was sent by now.
  abbrev pub Past : ℕ → List ℕ → Type 0
  Past now [] = Unit {0}
  Past now (e ∷ es) = (e ≤ now) × Past now es

  pub Past-le : (m n : ℕ) (es : List ℕ) → m ≤ n → Past m es → Past n es
  Past-le m n [] le p = tt
  Past-le m n (e ∷ es) le (p, ps) = (omega (arith, p, le), Past-le m n es le ps)

  pub Past-append : (now : ℕ) (es : List ℕ) → Past now es → Past now (es ++ now ∷ [])
  Past-append now [] p = (omega arith, tt)
  Past-append now (e ∷ es) (p, ps) = (p, Past-append now es ps)
