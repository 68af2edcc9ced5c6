-- ===== src/LogQuerier/DefaultHosts.antt =====
-- logquerier/client/client.go, `DefaultHostsFile`: where the client looks for its hosts.
use distributed_group_member.Common.{
  ◌≡◌, refl, Bool, true, Option, none, some, if◌then◌else◌, ◌⊎◌, inl, inr, Bool-cases,
}
use distributed_group_member.Types.{Text, codes}

-- What the client calls: `os.Executable` and `os.Getwd` (`none` for an error), `filepath.Dir`,
-- `filepath.Join`, and whether `os.Stat` succeeds.
pub record Files : Type 0 where
  pub executable : Option Text
  pub getwd : Option Text
  pub dir : Text → Text
  pub join : Text → Text → Text
  pub exists : Text → Bool

abbrev pub hosts_txt : Text
hosts_txt = codes "hosts.txt"

-- A candidate if there is one that exists, or else what comes next.
unfoldable pub candidate_or : Files → Option Text → Text → Text
candidate_or fs none next = next
candidate_or fs (some dir) next =
    if fs.exists (fs.join dir hosts_txt) then fs.join dir hosts_txt else next

unfoldable pub default_hosts_file : Files → Text
unfolding candidate_or
default_hosts_file fs =
    let beside : Option Text = elim fs.executable [ none ↦ none | some exe ↦ some (fs.dir exe) ] in
    candidate_or fs beside (candidate_or fs fs.getwd hosts_txt)

candidate_or-exists :
    (fs : Files) (place : Option Text) (next : Text)
    → (fs.exists next ≡ true) ⊎ (next ≡ hosts_txt)
    → (fs.exists (candidate_or fs place next) ≡ true) ⊎ (candidate_or fs place next ≡ hosts_txt)
unfolding candidate_or
candidate_or-exists fs none next known = known
candidate_or-exists fs (some dir) next known =
    elim (Bool-cases (fs.exists (fs.join dir hosts_txt))) [
      | inl there ↦ rw there (inl there)
      | inr missing ↦ rw missing known
    ]

-- The file exists, or it is the last resort.
pub default_hosts_file-exists :
    (fs : Files) → (fs.exists (default_hosts_file fs) ≡ true) ⊎ (default_hosts_file fs ≡ hosts_txt)
unfolding default_hosts_file
default_hosts_file-exists fs =
    candidate_or-exists fs _ _ (candidate_or-exists fs fs.getwd hosts_txt (inr refl))
