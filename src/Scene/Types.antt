-- ===== src/Scene/Types.antt =====
-- scene/src/stream_source.rs, scene/src/stream_target.rs, scene/src/stream_id.rs and
-- scene/src/connect_result.rs, with `ConnectionError` of scene/src/error.rs.
use flo_scene.Common.{
  ℕ, List, Bool, Bool-cases, ◌≢◌, true, false, ◌&&◌, Option, ◌≡◌, ◌↔◌, ◌⊎◌, inl, inr, refl, arith,
  ◌==◌,
}
use flo_scene.Common.Table.{Eq}
use flo_scene.SubProgram.{SubProgramId, id_eq, id_eq_iff}

-- A filter handle is the number that the registry gave it, and a `TypeId` is a number too.
abbrev pub FilterHandle : Type 0
FilterHandle = ℕ

abbrev pub TypeId : Type 0
TypeId = ℕ

pub data StreamSource : Type 0 where
  all : StreamSource
  filtered : FilterHandle → StreamSource
  program : SubProgramId → StreamSource

pub data StreamTarget : Type 0 where
  none any : StreamTarget
  program : SubProgramId → StreamTarget
  filtered : FilterHandle → SubProgramId → StreamTarget

-- `StreamSource::matches_subprogram`
unfoldable pub matches_subprogram : StreamSource → SubProgramId → Bool
matches_subprogram StreamSource.all id = true
matches_subprogram (StreamSource.filtered _) id = true
matches_subprogram (StreamSource.program source_id) id = id_eq source_id id

-- `StreamTarget::target_sub_program`
unfoldable pub target_sub_program : StreamTarget → Option SubProgramId
target_sub_program StreamTarget.none = Option.none
target_sub_program StreamTarget.any = Option.none
target_sub_program (StreamTarget.program p) = Option.some p
target_sub_program (StreamTarget.filtered _ p) = Option.some p

-- The derived `PartialEq` of sources and of targets.
unfoldable pub source_beq : StreamSource → StreamSource → Bool
source_beq StreamSource.all StreamSource.all = true
source_beq (StreamSource.filtered f) (StreamSource.filtered g) = f == g
source_beq (StreamSource.program p) (StreamSource.program q) = id_eq p q
source_beq _ _ = false

unfoldable pub target_beq : StreamTarget → StreamTarget → Bool
target_beq StreamTarget.none StreamTarget.none = true
target_beq StreamTarget.any StreamTarget.any = true
target_beq (StreamTarget.program p) (StreamTarget.program q) = id_eq p q
target_beq (StreamTarget.filtered f p) (StreamTarget.filtered g q) = f == g && id_eq p q
target_beq _ _ = false

pub source_beq_iff : (a b : StreamSource) → (source_beq a b ≡ true) ↔ (a ≡ b)
unfolding source_beq
source_beq_iff StreamSource.all StreamSource.all = ground arith
source_beq_iff (StreamSource.program p) (StreamSource.program q) = ground (arith, id_eq_iff p q)
source_beq_iff _ _ = ground arith

pub target_beq_iff : (a b : StreamTarget) → (target_beq a b ≡ true) ↔ (a ≡ b)
unfolding target_beq
target_beq_iff StreamTarget.none StreamTarget.none = ground arith
target_beq_iff (StreamTarget.program p) (StreamTarget.program q) = ground (arith, id_eq_iff p q)
target_beq_iff (StreamTarget.filtered f p) (StreamTarget.filtered g q) =
    ground (arith, id_eq_iff p q)
target_beq_iff _ _ = ground arith

pub data StreamIdType : Type 0 where
  message_type : StreamIdType
  target : StreamTarget → StreamIdType

-- The message type's name and the type of its input core are functions of `message_type`, and are
-- left out; `PartialEq` does not look at them.
pub record StreamId : Type 0 where
  pub stream_id_type : StreamIdType
  pub message_type : TypeId

stream_id_type_beq : StreamIdType → StreamIdType → Bool
stream_id_type_beq StreamIdType.message_type StreamIdType.message_type = true
stream_id_type_beq (target a) (target b) = target_beq a b
stream_id_type_beq _ _ = false

-- `PartialEq for StreamId`
unfoldable pub stream_id_beq : StreamId → StreamId → Bool
unfolding stream_id_type_beq
stream_id_beq a b =
    stream_id_type_beq a.stream_id_type b.stream_id_type && a.message_type == b.message_type

stream_id_type_beq_iff : (a b : StreamIdType) → (stream_id_type_beq a b ≡ true) ↔ (a ≡ b)
unfolding stream_id_type_beq
stream_id_type_beq_iff StreamIdType.message_type StreamIdType.message_type = ground arith
stream_id_type_beq_iff (target a) (target b) = ground (arith, target_beq_iff a b)
stream_id_type_beq_iff _ _ = ground arith

pub stream_id_beq_iff : (a b : StreamId) → (stream_id_beq a b ≡ true) ↔ (a ≡ b)
stream_id_beq_iff a b =
    unfold stream_id_beq in ground (arith, stream_id_type_beq_iff a.stream_id_type b.stream_id_type)

abbrev pub id_key : Eq SubProgramId
id_key = record { beq = id_eq; beq_iff = id_eq_iff }

abbrev pub source_key : Eq StreamSource
source_key = record { beq = source_beq; beq_iff = source_beq_iff }

abbrev pub stream_key : Eq StreamId
stream_key = record { beq = stream_id_beq; beq_iff = stream_id_beq_iff }

-- `StreamId::with_message_type`
unfoldable pub with_message_type : TypeId → StreamId
with_message_type t = record { stream_id_type = StreamIdType.message_type; message_type = t }

-- `StreamId::for_target`, on a target and on a program.
unfoldable pub for_target : StreamId → StreamTarget → StreamId
for_target id t = record id { stream_id_type = target t }

abbrev pub for_program : StreamId → SubProgramId → StreamId
for_program id p = for_target id (StreamTarget.program p)

unfoldable pub as_message_type : StreamId → StreamId
as_message_type id = record id { stream_id_type = StreamIdType.message_type }

abbrev program_of : StreamIdType → Option SubProgramId
program_of StreamIdType.message_type = Option.none
program_of (target (StreamTarget.program p)) = Option.some p
program_of (target (StreamTarget.filtered _ p)) = Option.some p
program_of (target _) = Option.none

-- `StreamId::target_program`
unfoldable pub target_program : StreamId → Option SubProgramId
target_program id = program_of id.stream_id_type

-- The two message types of `WrongInputType` are type ids here, not names, and the text of an
-- `IoError` is the list of its characters.
pub data ConnectionError : Type 0 where
  cancelled sub_program_not_running : ConnectionError
  wrong_input_type : TypeId → TypeId → ConnectionError
  stream_not_known target_not_in_scene target_not_available target_not_ready : ConnectionError
  filter_input_does_not_match filter_output_does_not_match : ConnectionError
  filter_handle_not_found filter_mapping_missing : ConnectionError
  filter_source_input_must_match_stream filter_target_input_must_match_stream : ConnectionError
  unexpected_connection_type no_outside_scene_sub_program cannot_steal_thread : ConnectionError
  target_permission_refused target_connection_refused target_cannot_deserialize : ConnectionError
  io_error : List ℕ → ConnectionError

pub data ConnectionResult : Type 0 where
  ready target_not_ready input_type_not_ready : ConnectionResult

pub data Result {ℓ} (A : Type ℓ) : Type ℓ where
  ok : A → Result A
  err : ConnectionError → Result A

infixl 5 ◌>>=◌
abbrev pub ◌>>=◌ {ℓ κ} : {A : Type ℓ} {B : Type κ} → Result A → (A → Result B) → Result B
ok a >>= f = f a
err e >>= f = err e

-- `Option::ok_or`
abbrev pub ok_or {ℓ} : {A : Type ℓ} → Option A → ConnectionError → Result A
ok_or Option.none e = err e
ok_or (Option.some a) e = ok a

pub bind-eq-ok {ℓ κ} :
    {A : Type ℓ} {B : Type κ} (r : Result A) (k : A → Result B) {value : B}
    → r >>= k ≡ ok value
    → (first : A) × (r ≡ ok first) × (k first ≡ ok value)
bind-eq-ok (ok first) k is = (first, refl, is)
bind-eq-ok (err fault) k is = cc

-- Two continuations that agree everywhere.
pub bind_ext {ℓ κ} :
    {A : Type ℓ} {B : Type κ} (r : Result A) (j k : A → Result B)
    → ((first : A) → j first ≡ k first)
    → r >>= j ≡ (r >>= k)
bind_ext (ok first) j k same = same first
bind_ext (err fault) j k same = refl

-- A chain fails at its first result, or after it.
pub bind-eq-err {ℓ κ} :
    {A : Type ℓ} {B : Type κ} (r : Result A) (k : A → Result B) {fault : ConnectionError}
    → r >>= k ≡ err fault
    → (r ≡ err fault) ⊎ ((first : A) × (r ≡ ok first) × (k first ≡ err fault))
bind-eq-err (ok first) k is = inr (first, refl, is)
bind-eq-err (err _) k is = inl cc

pub ok_inj {ℓ} : {A : Type ℓ} {a b : A} → ok a ≡ ok b → a ≡ b
ok_inj h = cc

pub Result-cases {ℓ} :
    {A : Type ℓ} (r : Result A)
    → ((fault : ConnectionError) × (r ≡ err fault)) ⊎ ((a : A) × (r ≡ ok a))
Result-cases (err fault) = inl (fault, refl)
Result-cases (ok a) = inr (a, refl)

pub target_discrete : (t u : StreamTarget) → (t ≡ u) ⊎ (t ≢ u)
target_discrete t u = elim (Bool-cases (target_beq t u)) [
  | inl same ↦ inl ((target_beq_iff t u).0 same)
  | inr other ↦ inr (λ e. cc (other, (target_beq_iff t u).1 e))
]
