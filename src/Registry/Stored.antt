-- ===== src/Registry/Stored.antt =====
-- internal/registry/registry.go: what is read back from the table of repositories.
use artifact_fs_extropic.Base.{
  arith, ap, nat_eq, inl, inr, Bool-cases, ◌*◌, ◌/◌, ℕ, ◌≡◌, refl, Bool, true, false, List, [], ◌∷◌,
  Option, none, some, Text_eq, text_eq_iff, any, find, put, ok,
}
use artifact_fs_extropic.Model.{RepoConfig}
use artifact_fs_extropic.Registry.{
  RepoRow, row_id, row_name, row_of, second, is_taken, add_repo, get_repo, config_of, bool_to_int,
}

-- What the table keeps of a configuration.
abbrev pub stored : RepoConfig → RepoConfig
stored cfg = record cfg {
  remote_url = [];
  refresh_interval = cfg.refresh_interval / second * second;
}

find-put_name :
    (v : RepoRow) (rows : List RepoRow)
    → is_taken v.repo_id v.name rows ≡ false
    → find row_name v.name (put row_id v rows) ≡ some v
unfolding find put any
find-put_name v [] h = ground (arith, text_eq_iff v.name v.name)
find-put_name v (r ∷ rows) h = ground (arith, text_eq_iff v.name v.name, find-put_name v rows, h)

nat_eq-bool_to_int : (b : Bool) → nat_eq (bool_to_int b) 1 ≡ b
nat_eq-bool_to_int true = refl
nat_eq-bool_to_int false = refl

config_of-row_of :
    (cfg : RepoConfig) (now : ℕ) (old : Option RepoRow)
    → config_of (row_of cfg now old) ≡ stored cfg
config_of-row_of cfg now old =
    ap (λ b. record (stored cfg) { enabled = b }) (nat_eq-bool_to_int cfg.enabled)

-- After an AddRepo that ended well, GetRepo of the name gives the configuration back without its
-- remote URL, and with the refresh interval in whole seconds.
pub add_repo-get :
    (cfg : RepoConfig) (now : ℕ) (rows : List RepoRow)
    → (add_repo none cfg now rows).0 ≡ ok tt
    → get_repo none cfg.name (add_repo none cfg now rows).1 ≡ ok (stored cfg)
unfolding add_repo get_repo
add_repo-get cfg now rows h = elim (Bool-cases (is_taken cfg.id cfg.name rows)) [
  | inl taken ↦ absurd (ground (arith, taken, h))
  | inr free ↦
      let v = row_of cfg now (find row_id cfg.id rows) in
      rw (free, find-put_name v rows free, config_of-row_of cfg now (find row_id cfg.id rows))
]
