-- ===== src/Runtime/Governance.antt =====
-- The origins that the governance pallets of polkadot-parachains/integritee-runtime/src/lib.rs are
-- configured with. `EnsureRoot`, `EnsureProportionMoreThan`, `EnsureProportionAtLeast`,
-- `EnsureMember`, `EnsureSigned` and `EitherOfDiverse` are outside the repository, hence parameters:
-- `Checks` holds them, as tests on an origin.
pub mod Laws
use parachain.Base.{ℕ, Bool}

-- The two instances of `pallet_collective`.
pub data Collective : Type 0 where
  council_instance technical_committee_instance : Collective

pub record Checks : Type 1 where
  pub Origin : Type 0
  pub ensure_root : Origin → Bool
  pub ensure_signed : Origin → Bool
  pub ensure_member : Collective → Origin → Bool
  -- The two numbers are the numerator and the denominator of the proportion.
  pub ensure_proportion_more_than : Collective → ℕ → ℕ → Origin → Bool
  pub ensure_proportion_at_least : Collective → ℕ → ℕ → Origin → Bool
  pub either_of_diverse : (Origin → Bool) → (Origin → Bool) → Origin → Bool

module _ (K : Checks) where
  unfoldable pub ensure_root_or_more_than_half_council : K.Origin → Bool
  ensure_root_or_more_than_half_council =
      K.either_of_diverse K.ensure_root (K.ensure_proportion_more_than council_instance 1 2)

  unfoldable pub ensure_root_or_more_than_half_technical_committee : K.Origin → Bool
  ensure_root_or_more_than_half_technical_committee =
      K.either_of_diverse K.ensure_root
        (K.ensure_proportion_at_least technical_committee_instance 1 2)

  unfoldable pub ensure_root_or_all_technical_committee : K.Origin → Bool
  ensure_root_or_all_technical_committee =
      K.either_of_diverse K.ensure_root
        (K.ensure_proportion_at_least technical_committee_instance 1 1)

-- The origins that the configuration of `pallet_democracy` names.
pub data DemocracyAction : Type 0 where
  external external_majority external_default fast_track instant : DemocracyAction
  cancellation blacklist cancel_proposal veto submit : DemocracyAction

-- Those of `pallet_treasury`.
pub data TreasuryAction : Type 0 where
  approve reject spend : TreasuryAction

module _ (K : Checks) where
  unfoldable pub democracy_origin : DemocracyAction → K.Origin → Bool
  unfolding ensure_root_or_more_than_half_council ensure_root_or_more_than_half_technical_committee
      ensure_root_or_all_technical_committee
  democracy_origin external = ensure_root_or_more_than_half_council K
  democracy_origin external_majority = ensure_root_or_more_than_half_council K
  democracy_origin external_default = ensure_root_or_more_than_half_council K
  democracy_origin fast_track = ensure_root_or_more_than_half_technical_committee K
  democracy_origin instant = ensure_root_or_more_than_half_technical_committee K
  democracy_origin cancellation = K.ensure_root
  democracy_origin blacklist = ensure_root_or_more_than_half_council K
  democracy_origin cancel_proposal = ensure_root_or_all_technical_committee K
  democracy_origin veto = K.ensure_member technical_committee_instance
  democracy_origin submit = K.ensure_signed

  -- `EnsureWithSuccess<EnsureRoot<..>, ..>` admits what `EnsureRoot` admits.
  unfoldable pub treasury_origin : TreasuryAction → K.Origin → Bool
  unfolding ensure_root_or_more_than_half_council
  treasury_origin approve = ensure_root_or_more_than_half_council K
  treasury_origin reject = ensure_root_or_more_than_half_council K
  treasury_origin spend = K.ensure_root

  -- The origins of other pallets.
  unfoldable pub set_council_members_origin : K.Origin → Bool
  unfolding ensure_root_or_more_than_half_council
  set_council_members_origin = ensure_root_or_more_than_half_council K

  unfoldable pub set_technical_members_origin : K.Origin → Bool
  unfolding ensure_root_or_more_than_half_council
  set_technical_members_origin = ensure_root_or_more_than_half_council K

  unfoldable pub swap_origin : K.Origin → Bool
  unfolding ensure_root_or_more_than_half_council
  swap_origin = ensure_root_or_more_than_half_council K

  unfoldable pub schedule_origin : K.Origin → Bool
  schedule_origin = K.ensure_root

  unfoldable pub manage_preimages_origin : K.Origin → Bool
  manage_preimages_origin = K.ensure_root

  unfoldable pub move_claim_origin : K.Origin → Bool
  move_claim_origin = K.ensure_root

  unfoldable pub act_as_sovereign_origin : K.Origin → Bool
  act_as_sovereign_origin = K.ensure_root

  unfoldable pub administer_xcm_origin : K.Origin → Bool
  administer_xcm_origin = K.ensure_root

  unfoldable pub execute_overweight_xcmp_origin : K.Origin → Bool
  execute_overweight_xcmp_origin = K.ensure_root

  unfoldable pub control_xcmp_origin : K.Origin → Bool
  control_xcmp_origin = K.ensure_root

  unfoldable pub execute_overweight_dmp_origin : K.Origin → Bool
  execute_overweight_dmp_origin = K.ensure_root

-- All of these; the last five are of pallets that
-- polkadot-parachains/integritee-runtime/src/xcm_config.rs configures.
pub data PalletAction : Type 0 where
  set_council_members set_technical_members : PalletAction
  schedule manage_preimages move_claim act_as_sovereign : PalletAction
  administer_xcm execute_overweight_xcmp control_xcmp execute_overweight_dmp swap : PalletAction

module _ (K : Checks) where
  unfoldable pub pallet_origin : PalletAction → K.Origin → Bool
  unfolding set_council_members_origin set_technical_members_origin swap_origin schedule_origin
      manage_preimages_origin move_claim_origin act_as_sovereign_origin administer_xcm_origin
      execute_overweight_xcmp_origin control_xcmp_origin execute_overweight_dmp_origin
  pallet_origin set_council_members = set_council_members_origin K
  pallet_origin set_technical_members = set_technical_members_origin K
  pallet_origin swap = swap_origin K
  pallet_origin schedule = schedule_origin K
  pallet_origin manage_preimages = manage_preimages_origin K
  pallet_origin move_claim = move_claim_origin K
  pallet_origin act_as_sovereign = act_as_sovereign_origin K
  pallet_origin administer_xcm = administer_xcm_origin K
  pallet_origin execute_overweight_xcmp = execute_overweight_xcmp_origin K
  pallet_origin control_xcmp = control_xcmp_origin K
  pallet_origin execute_overweight_dmp = execute_overweight_dmp_origin K
