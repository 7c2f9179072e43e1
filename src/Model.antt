-- ===== src/Model.antt =====
-- model/model.go: the models that stand for one stored content.
use entix.Prelude.{ℕ, Outcome, ok, ◌>>=◌}
use entix.Meta.{MetaContent}
use entix.Meta.Content
use entix.Domain
use entix.Graph.Build

pub record Model : Type 0 where
  pub meta : Content.Model
  pub domain : Domain.Model
  pub graph : Build.Model

unfoldable pub new : ℕ → MetaContent → ℕ → Outcome Model
unfolding Content.new Domain.new Build.new
new fuel c app_id = do
  m ← Content.new c app_id
  d ← Domain.new m
  g ← Build.new fuel d
  ok (record { meta = m; domain = d; graph = g })
