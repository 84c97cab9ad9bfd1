-- ===== src/BenchmarkLoad/Runs/Repeated.antt =====
-- Runs of the load benchmark one after the other.
use go_persist.Base.{ℕ, zero, suc, ◌≡◌, refl, ap, ◌∙◌, Bool, true, Option, some}
use go_persist.BenchmarkLoad.Runs.{◌>>=◌}

-- `run`, as many times.
unfoldable pub repeat : {D : Type 0} → (D → Option D) → ℕ → D → Option D
repeat run zero dir = some dir
repeat run (suc rounds) dir = run dir >>= repeat run rounds

module _ {D : Type 0} (missing : D → Bool) (Good : D → Type 0) where
  -- A run that makes a good database where it is missing, and keeps it good otherwise.
  pub record Dependable (run : D → Option D) : Type 0 where
    pub creates : (dir : D) → missing dir ≡ true → (dir' : D) × (run dir ≡ some dir') × Good dir'
    pub reads : (dir : D) → Good dir → (dir' : D) × (run dir ≡ some dir') × Good dir'

  module _ {run : D → Option D} (d : Dependable run) where
    repeat-Good :
        (rounds : ℕ) (dir : D)
        → Good dir
        → (dir' : D) × (repeat run rounds dir ≡ some dir') × Good dir'
    unfolding repeat
    repeat-Good zero dir w = (dir, refl, w)
    repeat-Good (suc rounds) dir w =
        let (dir₁, one, w₁) = d.reads dir w in
        let (dir₂, more, w₂) = repeat-Good rounds dir₁ w₁ in
        (dir₂, ap (λ (o : Option D). o >>= repeat run rounds) one ∙ more, w₂)

    pub repeat-created :
        (runs : ℕ) (dir : D)
        → missing dir ≡ true
        → (dir' : D) × (repeat run (suc runs) dir ≡ some dir') × Good dir'
    unfolding repeat
    repeat-created runs dir fresh =
        let (dir₁, one, w₁) = d.creates dir fresh in
        let (dir₂, more, w₂) = repeat-Good runs dir₁ w₁ in
        (dir₂, ap (λ (o : Option D). o >>= repeat run runs) one ∙ more, w₂)
