-- ===== src/Kernel/Governance.antt =====
-- `governance_mode` of scripts/l5_kernel.py: the repository's mode, from live evidence.
use one_company.Prelude.{
  ◌≡◌, ◌↔◌, String, Bool, true, false, not, ◌||◌, List, [], ◌∷◌, all, if◌then◌else◌, arith, In,
  all_append, all_split, ◌++◌, ◌∙◌, all-In, all_of_In,
}
use one_company.Json.{bool, Fields, get, is_true, is_true-eq}
use one_company.Kernel.Types.{
  RepoMode, normal, merge_locked, main_broken, main_broken_env, automation_degraded,
  provider_throttled, governance_drift, security_integrity_failure, controller_integrity, halted,
  archived_permission_lost,
}

abbrev pub governance_fields : List String
governance_fields =
    "platform_enforcement_ok" ∷ "live_rules_at_least_pinned" ∷ "rulesets_or_protection_active"
    ∷ "required_check_sources_pinned" ∷ []

abbrev pub hard_troubles : List String
hard_troubles =
    "halted" ∷ "controller_integrity_failure" ∷ "security_integrity_failure" ∷ "controller_admin"
    ∷ "controller_bypass" ∷ []

abbrev pub mode_troubles : List String
mode_troubles =
    "main_broken" ∷ "main_broken_env" ∷ "automation_degraded" ∷ "provider_throttled"
    ∷ "merge_locked" ∷ "archived_or_permission_lost" ∷ []

abbrev pub troubles : List String
troubles = hard_troubles ++ mode_troubles

module _ (snapshot : Fields) where
  abbrev on : String → Bool
  on key = is_true (get snapshot key)

  -- The operational modes, once governance holds.
  unfoldable pub operational_mode : RepoMode
  operational_mode =
      if on "main_broken"
      then main_broken
      else if on "main_broken_env"
      then main_broken_env
      else if on "automation_degraded"
      then automation_degraded
      else if on "provider_throttled"
      then provider_throttled
      else if on "merge_locked"
      then merge_locked
      else if on "archived_or_permission_lost"
      then archived_permission_lost
      else normal

  unfoldable pub governance_mode : RepoMode
  governance_mode =
      if on "halted"
      then halted
      else if on "controller_integrity_failure"
      then controller_integrity
      else if on "security_integrity_failure"
      then security_integrity_failure
      else if not (on "ledger_reachable")
      then automation_degraded
      else if not (all on governance_fields) || on "controller_admin" || on "controller_bypass"
      then governance_drift
      else operational_mode

  -- What NORMAL asks: a reachable ledger, every governance field, and no evidence of trouble.
  pub record IsGoverned : Type 0 where
    pub reachable : get snapshot "ledger_reachable" ≡ bool true
    pub enforced : (k : String) → In k governance_fields → get snapshot k ≡ bool true
    pub untroubled : (k : String) → In k troubles → is_true (get snapshot k) ≡ false

  abbrev off : String → Bool
  off key = not (on key)

  operational-normal : operational_mode ≡ normal → all off mode_troubles ≡ true
  unfolding operational_mode all
  operational-normal h = ground arith

  normal-operational : all off mode_troubles ≡ true → operational_mode ≡ normal
  unfolding operational_mode all
  normal-operational h = ground arith

  governance-normal :
      governance_mode ≡ normal
      → (on "ledger_reachable" ≡ true)
        × (all on governance_fields ≡ true)
        × (all off hard_troubles ≡ true)
        × (operational_mode ≡ normal)
  unfolding governance_mode all
  governance-normal h = ground arith

  normal-governance :
      on "ledger_reachable" ≡ true
      → all on governance_fields ≡ true
      → all off hard_troubles ≡ true
      → governance_mode ≡ operational_mode
  unfolding governance_mode all
  normal-governance r f h = ground arith

  off-false : (k : String) → off k ≡ true → is_true (get snapshot k) ≡ false
  off-false k h = ground arith

  -- The repository is NORMAL exactly when the ledger is reachable, every governance field is there
  -- and true, and nothing reports trouble or excess rights of the controller.
  pub governance_mode-normal_iff : (governance_mode ≡ normal) ↔ IsGoverned
  governance_mode-normal_iff = (forward, backward)
    where
      forward : governance_mode ≡ normal → IsGoverned
      forward h =
          let (r, f, hard, op) = governance-normal h in
          let soft = operational-normal op in
          record {
            reachable = is_true-eq _ r;
            enforced = λ k m. is_true-eq _ (all-In on governance_fields f k m);
            untroubled = λ k m.
                off-false k
                  (all-In off troubles (all_append off hard_troubles mode_troubles hard soft) k m);
          }

      backward : IsGoverned → governance_mode ≡ normal
      backward g =
          let quiet = all_of_In off troubles (λ k m. rw (g.untroubled k m)) in
          let (hard, soft) = all_split off hard_troubles mode_troubles quiet in
          normal-governance (rw g.reachable)
            (all_of_In on governance_fields (λ k m. rw (g.enforced k m))) hard
          ∙ normal-operational soft
