-- ===== src/Proposals/Types.antt =====
-- proposals.rs, sender.rs and openmls/traits/src/grease.rs: proposals, their types and their senders.
-- The store never looks into the content of a proposal other than the leaf that a Remove names and
-- the identifier of a pre-shared key: the type of other contents is a parameter.
use mls4rn.Prelude.{
  ℕ, Bool, true, false, ◌==◌, ◌&&◌, if◌then◌else◌, Option, none, some, List, [], ◌∷◌,
}
use mls4rn.TreeMath.Index.{LeafNodeIndex}

pub data ProposalType : Type 0 where
  add update remove pre_shared_key reinit external_init : ProposalType
  group_context_extensions self_remove : ProposalType
  grease : ℕ → ProposalType
  custom : ℕ → ProposalType

abbrev pub is_default : ProposalType → Bool
is_default add = true
is_default update = true
is_default remove = true
is_default pre_shared_key = true
is_default reinit = true
is_default external_init = true
is_default group_context_extensions = true
is_default self_remove = false
is_default (grease id) = false
is_default (custom id) = false

abbrev pub is_grease : ProposalType → Bool
is_grease (grease id) = true
is_grease _ = false

abbrev pub type_path_required : ProposalType → Bool
type_path_required update = true
type_path_required remove = true
type_path_required external_init = true
type_path_required group_context_extensions = true
type_path_required self_remove = true
type_path_required _ = false

abbrev pub grease_values : List ℕ
grease_values =
    0x0A0A ∷ 0x1A1A ∷ 0x2A2A ∷ 0x3A3A ∷ 0x4A4A ∷ 0x5A5A ∷ 0x6A6A ∷ 0x7A7A ∷ 0x8A8A ∷ 0x9A9A ∷ 0xAAAA
    ∷ 0xBABA ∷ 0xCACA ∷ 0xDADA ∷ 0xEAEA ∷ []

abbrev any_equal : ℕ → List ℕ → Bool
any_equal value [] = false
any_equal value (v ∷ vs) = if value == v then true else any_equal value vs

unfoldable pub is_grease_value : ℕ → Bool
is_grease_value value = any_equal value grease_values

-- `From<u16> for ProposalType`
unfoldable pub proposal_type_of : ℕ → ProposalType
proposal_type_of value =
    if value == 1
    then add
    else if value == 2
    then update
    else if value == 3
    then remove
    else if value == 4
    then pre_shared_key
    else if value == 5
    then reinit
    else if value == 6
    then external_init
    else if value == 7
    then group_context_extensions
    else if value == 0x000a
    then self_remove
    else if is_grease_value value
    then grease value
    else custom value

-- `From<ProposalType> for u16`
unfoldable pub proposal_type_value : ProposalType → ℕ
proposal_type_value add = 1
proposal_type_value update = 2
proposal_type_value remove = 3
proposal_type_value pre_shared_key = 4
proposal_type_value reinit = 5
proposal_type_value external_init = 6
proposal_type_value group_context_extensions = 7
proposal_type_value self_remove = 0x000a
proposal_type_value (grease id) = id
proposal_type_value (custom id) = id

-- `PartialEq for ProposalType`: the constructor and the code are equal.
abbrev constructor_index : ProposalType → ℕ
constructor_index add = 0
constructor_index update = 1
constructor_index remove = 2
constructor_index pre_shared_key = 3
constructor_index reinit = 4
constructor_index external_init = 5
constructor_index group_context_extensions = 6
constructor_index self_remove = 7
constructor_index (grease id) = 8
constructor_index (custom id) = 9

abbrev id_or_zero : ProposalType → ℕ
id_or_zero (grease id) = id
id_or_zero (custom id) = id
id_or_zero _ = 0

unfoldable pub type_eq : ProposalType → ProposalType → Bool
type_eq s t = constructor_index s == constructor_index t && id_or_zero s == id_or_zero t

-- `Sender`; an external sender has its index in an extension.
pub data Sender : Type 0 where
  member : LeafNodeIndex → Sender
  external : ℕ → Sender
  new_member_proposal : Sender
  new_member_commit : Sender

abbrev pub is_member : Sender → Bool
is_member (member i) = true
is_member _ = false

abbrev pub as_member : Sender → Option LeafNodeIndex
as_member (member i) = some i
as_member _ = none

-- `PskId` is the type of identifiers of pre-shared keys.
pub data Proposal (Content PskId : Type 0) : Type 0 where
  add : Content → Proposal Content PskId
  update : Content → Proposal Content PskId
  remove : LeafNodeIndex → Proposal Content PskId
  pre_shared_key : PskId → Proposal Content PskId
  re_init : Content → Proposal Content PskId
  external_init : Content → Proposal Content PskId
  group_context_extensions : Content → Proposal Content PskId
  self_remove : Proposal Content PskId
  custom : ℕ → Content → Proposal Content PskId

module _ {Content PskId : Type 0} where
  abbrev pub proposal_type : Proposal Content PskId → ProposalType
  proposal_type (Proposal.add c) = ProposalType.add
  proposal_type (Proposal.update c) = ProposalType.update
  proposal_type (Proposal.remove i) = ProposalType.remove
  proposal_type (Proposal.pre_shared_key psk) = ProposalType.pre_shared_key
  proposal_type (Proposal.re_init c) = ProposalType.reinit
  proposal_type (Proposal.external_init c) = ProposalType.external_init
  proposal_type (Proposal.group_context_extensions c) = ProposalType.group_context_extensions
  proposal_type Proposal.self_remove = ProposalType.self_remove
  proposal_type (Proposal.custom code c) = ProposalType.custom code

  unfoldable pub is_type : Proposal Content PskId → ProposalType → Bool
  is_type p t = type_eq (proposal_type p) t

  abbrev pub is_path_required : Proposal Content PskId → Bool
  is_path_required p = type_path_required (proposal_type p)

  -- The arms of the source in their order. The last one is a debug assertion that fails.
  unfoldable pub has_lower_priority_than : Proposal Content PskId → Proposal Content PskId → Bool
  has_lower_priority_than (Proposal.update c) new_proposal = true
  has_lower_priority_than (Proposal.remove i) (Proposal.update c) = false
  has_lower_priority_than (Proposal.remove i) (Proposal.remove j) = true
  has_lower_priority_than old Proposal.self_remove = true
  has_lower_priority_than old new_proposal = false

  abbrev pub as_remove : Proposal Content PskId → Option LeafNodeIndex
  as_remove (Proposal.remove i) = some i
  as_remove _ = none

  abbrev pub is_remove : Proposal Content PskId → Bool
  is_remove (Proposal.remove i) = true
  is_remove _ = false

pub data ProposalOrRefType : Type 0 where
  proposal reference : ProposalOrRefType

pub data ProposalOrRef (Content PskId Ref : Type 0) : Type 0 where
  proposal : Proposal Content PskId → ProposalOrRef Content PskId Ref
  reference : Ref → ProposalOrRef Content PskId Ref
