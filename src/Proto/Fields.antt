-- ===== src/Proto/Fields.antt =====
-- What the generated `encode` puts for a field, and what the loop of `decode` makes of it.
use collab_notes_ecs.Base.{
  ℕ, ◌+◌, ◌-◌, ◌%◌, ◌<◌, ◌≡◌, ◌≢◌, refl, ap, ◌∙◌, Bool, true, false, Option, none, some, List, [],
  ◌∷◌, ◌++◌, ◌||◌, eqb, ltb, ltb→lt, length, length-append, append_assoc, append-nil, All,
  if◌then◌else◌, arith,
}
use collab_notes_ecs.Proto.Wire.{Bytes, Wire, Kind, IsUint32}
use collab_notes_ecs.Proto.Loop.{
  Read, read, unknown, on, left, round, tagged, finish, skipped, run, run-round,
}

module _ (wire : Wire) where
  -- `writer.uint32(tag)` and the value
  abbrev pub field : {A : Type 0} → ℕ → Kind A → A → Bytes
  field tag kind a = wire.put_uint32 tag ++ kind.put a

  -- `if (a !== d)` around it: a field that holds its default is left out
  abbrev pub unless : Bool → Bytes → Bytes
  unless is_default bytes = if is_default then [] else bytes

  -- `if (a !== undefined)`
  abbrev pub optional : {A : Type 0} → ℕ → Kind A → Option A → Bytes
  optional tag kind none = []
  optional tag kind (some a) = field tag kind a

  -- `for (const v of message.f)`
  abbrev pub repeated : {A : Type 0} → ℕ → Kind A → List A → Bytes
  repeated tag kind [] = []
  repeated tag kind (a ∷ vs) = field tag kind a ++ repeated tag kind vs

abbrev pub OptionAll : {A : Type 0} → (A → Type 0) → Option A → Type 0
OptionAll P none = Unit
OptionAll P (some a) = P a

module _ {M : Type 0} (wire : Wire) (switch : ℕ → M → Bytes → Read M) where
  -- Reading these bytes takes the loop from the one message to the other, whatever follows them.
  pub record Runs (m : M) (bytes : Bytes) (m' : M) : Type 0 where
    pub resumes :
        (rest : Bytes) (more : ℕ)
        → run wire switch (length bytes + more) m (bytes ++ rest) ≡ run wire switch more m' rest

  pub nil-Runs : (m : M) → Runs m [] m
  nil-Runs m = record {
    resumes = λ rest more. let none_left : 0 + more ≡ more = omega arith in rw none_left refl;
  }

  -- A tag that stands before more bytes makes them longer.
  tag_adds :
      (tag : ℕ) (rest : Bytes) → IsUint32 tag → length rest < length (wire.put_uint32 tag ++ rest)
  tag_adds tag rest h =
      wire.get_uint32_shrinks (wire.put_uint32 tag ++ rest) tag rest
        (wire.get-put_uint32 tag rest h)

  -- The round that reads a tag and what the switch makes of the rest
  pub run_tag :
      (m : M) (tag b : ℕ) (rest : Bytes)
      → IsUint32 tag
      → run wire switch (length (wire.put_uint32 tag) + b) m (wire.put_uint32 tag ++ rest)
        ≡ finish wire switch (run wire switch) b tag m rest (switch tag m rest)
  unfolding round tagged
  run_tag m tag b rest h =
      let adds : length rest < length (wire.put_uint32 tag ++ rest) = tag_adds tag rest h in
      let sum : length (wire.put_uint32 tag ++ rest) ≡ length (wire.put_uint32 tag) + length rest =
        length-append (wire.put_uint32 tag) rest in
      let more : ltb 0 (length (wire.put_uint32 tag) + b) ≡ true = ground arith in
      let budget : length (wire.put_uint32 tag)
            + b
            - (length (wire.put_uint32 tag ++ rest) - length rest)
          ≡ b =
        omega arith in
      rw
        (
          run-round wire switch (length (wire.put_uint32 tag) + b) m (wire.put_uint32 tag ++ rest),
          more,
          wire.get-put_uint32 tag rest h,
          budget,
        )
        refl

  left-append :
      (content rest : Bytes) (more : ℕ) → left (length content + more) (content ++ rest) rest ≡ more
  left-append content rest more = omega (arith, length-append content rest)

  -- A tag and its content, both read
  pub read-Runs :
      (m m' : M) (tag : ℕ) (content : Bytes)
      → IsUint32 tag
      → ((rest : Bytes) → switch tag m (content ++ rest) ≡ read m' rest)
      → Runs m (wire.put_uint32 tag ++ content) m'
  unfolding finish
  read-Runs m m' tag content h reads = record {
    resumes = λ rest more.
        let lengths : length (wire.put_uint32 tag ++ content) + more
            ≡ length (wire.put_uint32 tag) + (length content + more) =
          omega (arith, length-append (wire.put_uint32 tag) content) in
        rw
          (
            lengths,
            append_assoc (wire.put_uint32 tag) content rest,
            run_tag m tag (length content + more) (content ++ rest) h,
            reads rest,
            left-append content rest more,
          )
          refl;
  }

  -- A field that no case of the switch reads is skipped.
  pub skip-Runs :
      (m : M) (tag : ℕ) (content : Bytes)
      → IsUint32 tag
      → tag ≢ 0
      → tag % 8 ≢ 4
      → ((rest : Bytes) → switch tag m (content ++ rest) ≡ unknown)
      → ((rest : Bytes) → wire.skip (tag % 8) (content ++ rest) ≡ some rest)
      → Runs m (wire.put_uint32 tag ++ content) m
  unfolding finish skipped
  skip-Runs m tag content h ne not_end no_case skips = record {
    resumes = λ rest more.
        let lengths : length (wire.put_uint32 tag ++ content) + more
            ≡ length (wire.put_uint32 tag) + (length content + more) =
          omega (arith, length-append (wire.put_uint32 tag) content) in
        let goes_on : (eqb (tag % 8) 4 || eqb tag 0) ≡ false = ground arith in
        rw
          (
            lengths,
            append_assoc (wire.put_uint32 tag) content rest,
            run_tag m tag (length content + more) (content ++ rest) h,
            no_case rest,
            goes_on,
            skips rest,
            left-append content rest more,
          )
          refl;
  }

module _ {M : Type 0} {wire : Wire} {switch : ℕ → M → Bytes → Read M} where
  -- One after the other
  pub ◌>>◌ :
      {m m' m'' : M} {first second : Bytes}
      → Runs wire switch m first m'
      → Runs wire switch m' second m''
      → Runs wire switch m (first ++ second) m''
  ◌>>◌ {first} {second} r s = record {
    resumes = λ rest more.
        let lengths : length (first ++ second) + more ≡ length first + (length second + more) =
          omega (arith, length-append first second) in
        rw (lengths, append_assoc first second rest)
          (r.resumes (second ++ rest) (length second + more) ∙ s.resumes rest more);
  }

  infixl 40 ◌>>◌

module _ {M A : Type 0} (wire : Wire) (switch : ℕ → M → Bytes → Read M) (tag : ℕ)
    (fits : ltb tag 4294967296 ≡ true) (kind : Kind A) where
  pub field-Runs :
      {m : M} (f : A → M)
      → ((bytes : Bytes) → switch tag m bytes ≡ on (kind.get bytes) f)
      → (a : A) → kind.Valid a
      → Runs wire switch m (field wire tag kind a) (f a)
  field-Runs {m} f reads a valid =
      read-Runs wire switch m (f a) tag (kind.put a) (ltb→lt tag 4294967296 fits)
        (λ rest. reads (kind.put a ++ rest) ∙ ap (λ o. on o f) (kind.get-put a rest valid))

  pub scalar-Runs :
      {m : M} (f : A → M)
      → ((bytes : Bytes) → switch tag m bytes ≡ on (kind.get bytes) f)
      → (is_default : Bool) (a : A) → (is_default ≡ true → m ≡ f a)
      → kind.Valid a
      → Runs wire switch m (unless wire is_default (field wire tag kind a)) (f a)
  scalar-Runs {m} f reads true a default valid = rw (← default refl) (nil-Runs wire switch m)
  scalar-Runs {m} f reads false a default valid = field-Runs f reads a valid

  pub optional-Runs :
      {m : M} (f : Option A → M)
      → ((bytes : Bytes) → switch tag m bytes ≡ on (kind.get bytes) (λ a. f (some a)))
      → m ≡ f none
      → (o : Option A) → OptionAll kind.Valid o
      → Runs wire switch m (optional wire tag kind o) (f o)
  optional-Runs {m} f reads absent none valid = rw (← absent) (nil-Runs wire switch m)
  optional-Runs {m} f reads absent (some a) valid = field-Runs (λ b. f (some b)) reads a valid

  -- The elements after those that are there
  push-Runs :
      (f : List A → M)
      → ((vs : List A) (bytes : Bytes)
          → switch tag (f vs) bytes ≡ on (kind.get bytes) (λ a. f (vs ++ (a ∷ []))))
      → (before vs : List A) → All kind.Valid vs
      → Runs wire switch (f before) (repeated wire tag kind vs) (f (before ++ vs))
  push-Runs f reads before [] valid = rw (append-nil before) (nil-Runs wire switch (f before))
  push-Runs f reads before (a ∷ vs) valid =
      field-Runs (λ b. f (before ++ (b ∷ []))) (reads before) a valid.0
      >> (rw (← append_assoc before (a ∷ []) vs)
          (push-Runs f reads (before ++ (a ∷ [])) vs valid.1))

  pub repeated-Runs :
      {m : M} (f : List A → M)
      → ((vs : List A) (bytes : Bytes)
          → switch tag (f vs) bytes ≡ on (kind.get bytes) (λ a. f (vs ++ (a ∷ []))))
      → m ≡ f []
      → (vs : List A) → All kind.Valid vs
      → Runs wire switch m (repeated wire tag kind vs) (f vs)
  repeated-Runs {m} f reads absent vs valid = rw absent (push-Runs f reads [] vs valid)
