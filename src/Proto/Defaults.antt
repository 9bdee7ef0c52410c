-- ===== src/Proto/Defaults.antt =====
-- The fields that the generated `encode` leaves out when they hold the default of their type: what the
-- loop of `decode` makes of them, written or left out.
use collab_notes_ecs.Base.{
  ℕ, suc, ◌≡◌, sym, ap, ◌∙◌, Bool, true, false, not, Text, ◌==◌, eq_of_==, [], ◌∷◌, eqb, ltb,
  length, arith,
}
use collab_notes_ecs.Proto.Integers.{ℤ, pos, eqz, eqz_eq}
use collab_notes_ecs.Proto.Wire.{Bytes, Wire, Kind}
use collab_notes_ecs.Proto.Loop.{Read, on}
use collab_notes_ecs.Proto.Fields.{field, unless, Runs, scalar-Runs}
use collab_notes_ecs.Proto.Kinds.{is_zero, IsNotNegativeZero}

module _ {M : Type 0} (wire : Wire) (switch : ℕ → M → Bytes → Read M) (tag : ℕ)
    (fits : ltb tag 4294967296 ≡ true) where
  pub text_field :
      {m : M} (f : Text → M)
      → ((bytes : Bytes) → switch tag m bytes ≡ on (wire.string.get bytes) f)
      → m ≡ f []
      → (s : Text) → wire.string.Valid s
      → Runs wire switch m (unless wire (s == []) (field wire tag wire.string s)) (f s)
  text_field f reads default s valid =
      scalar-Runs wire switch tag fits wire.string f reads (s == []) s
        (λ e. default ∙ ap f (sym (eq_of_== s [] e))) valid

  pub bytes_field :
      {m : M} (f : Bytes → M)
      → ((bytes : Bytes) → switch tag m bytes ≡ on (wire.bytes.get bytes) f)
      → m ≡ f []
      → (b : Bytes) → wire.bytes.Valid b
      → Runs wire switch m (unless wire (eqb (length b) 0) (field wire tag wire.bytes b)) (f b)
  bytes_field f reads default [] valid =
      scalar-Runs wire switch tag fits wire.bytes f reads true [] (λ e. default) valid
  bytes_field f reads default (x ∷ b) valid =
      let some_there : eqb (suc (length b)) 0 ≡ false = ground arith in
      rw some_there
        (scalar-Runs wire switch tag fits wire.bytes f reads false (x ∷ b) (λ e. cc) valid)

  pub bool_field :
      {m : M} (f : Bool → M)
      → ((bytes : Bytes) → switch tag m bytes ≡ on (wire.bool.get bytes) f)
      → m ≡ f false
      → (b : Bool) → Runs wire switch m (unless wire (not b) (field wire tag wire.bool b)) (f b)
  bool_field f reads default true =
      scalar-Runs wire switch tag fits wire.bool f reads false true (λ e. cc) (wire.bool_Valid true)
  bool_field f reads default false =
      scalar-Runs wire switch tag fits wire.bool f reads true false (λ e. default)
        (wire.bool_Valid false)

  pub number_field :
      {m : M} (kind : Kind ℤ) (f : ℤ → M)
      → ((bytes : Bytes) → switch tag m bytes ≡ on (kind.get bytes) f)
      → m ≡ f (pos 0)
      → (i : ℤ) → kind.Valid i
      → Runs wire switch m (unless wire (eqz i (pos 0)) (field wire tag kind i)) (f i)
  number_field kind f reads default i valid =
      scalar-Runs wire switch tag fits kind f reads (eqz i (pos 0)) i
        (λ e. default ∙ ap f (sym (eqz_eq i (pos 0) e))) valid

  pub double_field :
      {m : M} (f : ℕ → M)
      → ((bytes : Bytes) → switch tag m bytes ≡ on (wire.double.get bytes) f)
      → m ≡ f 0
      → (d : ℕ) → IsNotNegativeZero d
      → wire.double.Valid d
      → Runs wire switch m (unless wire (is_zero d) (field wire tag wire.double d)) (f d)
  unfolding is_zero
  double_field f reads default d not_negative valid =
      scalar-Runs wire switch tag fits wire.double f reads (is_zero d) d
        (λ e. let zero_bits : 0 ≡ d = ground arith in default ∙ ap f zero_bits) valid

  pub enum_field :
      {E : Type 0} {m : M} (kind : Kind E) (is_default : E → Bool) (default : E)
      → ((e : E) → is_default e ≡ true → default ≡ e)
      → (f : E → M) → ((bytes : Bytes) → switch tag m bytes ≡ on (kind.get bytes) f)
      → m ≡ f default
      → (e : E) → kind.Valid e
      → Runs wire switch m (unless wire (is_default e) (field wire tag kind e)) (f e)
  enum_field kind is_default default same f reads starts e valid =
      scalar-Runs wire switch tag fits kind f reads (is_default e) e
        (λ h'. starts ∙ ap f (same e h')) valid
