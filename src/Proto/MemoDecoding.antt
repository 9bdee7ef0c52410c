-- ===== src/Proto/MemoDecoding.antt =====
-- What `Memo.decode` of app/web/src/types/proto/api/v1/memo_service.ts makes of the bytes of a memo: those
-- that `Memo.encode` writes, with fields of a later version among them, with a field written again,
-- with a field that is cut off, and with a tag that ends them.
use collab_notes_ecs.Base.{
  ℕ, ◌%◌, ◌<◌, ◌≡◌, ◌≢◌, refl, ◌∙◌, Text, none, some, [], ◌∷◌, ◌++◌, length, length-append, arith,
  eqb, true, ◌||◌, ◌⊎◌, inl, inr,
}
use collab_notes_ecs.Proto.Wire.{Bytes, Wire, Kind, IsUint32}
use collab_notes_ecs.Proto.Loop.{unknown, failed, finish}
use collab_notes_ecs.Proto.Fields.{field, Runs, ◌>>◌, skip-Runs, field-Runs, run_tag}
use collab_notes_ecs.Proto.Kinds.{message_of, decode_with-Runs, decode_with-append}
use collab_notes_ecs.Proto.MemoService.Memo.{Memo, base, encode, decode, switch, Valid, encode-Runs}

module _ {Node : Type 0} (wire : Wire) (node : Kind Node) where
  -- Decoding what `encode` writes gives the memo back, if the memo is valid: its texts and bytes can be
  -- written, its nodes are valid for their kind, its numbers fit their types and those sent as 64 bits are
  -- safe integers, neither latitude nor longitude is the negative zero, and each message in it encodes to
  -- less than 2^32 bytes.
  pub decode-encode :
      (m : Memo Node) → Valid wire node m → decode wire node (encode wire node m) ≡ some m
  unfolding decode
  decode-encode m valid =
      decode_with-Runs wire (switch wire node) base (encode wire node m) m
        (encode-Runs wire node m valid)

  switch_later :
      (m : Memo Node) (tag : ℕ) (bytes : Bytes) → 146 < tag → switch wire node tag m bytes ≡ unknown
  unfolding switch
  switch_later m tag bytes h = ground arith

  later-Runs :
      (m : Memo Node) (tag : ℕ) (content : Bytes)
      → IsUint32 tag
      → 146 < tag
      → tag % 8 ≢ 4
      → ((rest : Bytes) → wire.skip (tag % 8) (content ++ rest) ≡ some rest)
      → Runs wire (switch wire node) m (wire.put_uint32 tag ++ content) m
  later-Runs m tag content fits h not_end skips =
      let ne : tag ≢ 0 = omega arith in
      skip-Runs wire (switch wire node) m tag content fits ne not_end
        (λ rest. switch_later m tag (content ++ rest) h) skips

  -- A field whose tag is above those of the memo, not of the wire type that ends a group, and that the
  -- reader can skip, changes nothing: before or after the fields of a valid memo, the memo comes back.
  pub decode-unknown_field :
      (m : Memo Node) (tag : ℕ) (content : Bytes)
      → Valid wire node m
      → IsUint32 tag
      → 146 < tag
      → tag % 8 ≢ 4
      → ((rest : Bytes) → wire.skip (tag % 8) (content ++ rest) ≡ some rest)
      → (decode wire node (encode wire node m ++ (wire.put_uint32 tag ++ content)) ≡ some m)
        × (decode wire node ((wire.put_uint32 tag ++ content) ++ encode wire node m) ≡ some m)
  unfolding decode
  decode-unknown_field m tag content valid fits h not_end skips = (
    decode_with-Runs wire (switch wire node) base _ m
        (encode-Runs wire node m valid >> later-Runs m tag content fits h not_end skips),
    decode_with-Runs wire (switch wire node) base _ m
        (later-Runs base tag content fits h not_end skips >> encode-Runs wire node m valid),
  )

  -- After a valid memo, a second content takes the place of the first, and another tag comes last among
  -- the tags, for a text that can be written.
  pub decode-later_field :
      (m : Memo Node) (s : Text)
      → Valid wire node m
      → wire.string.Valid s
      → (decode wire node (encode wire node m ++ field wire 58 wire.string s)
          ≡ some (record m { content = s }))
        × (decode wire node (encode wire node m ++ field wire 82 wire.string s)
            ≡ some (record m { tags = m.tags ++ (s ∷ []) }))
  unfolding decode switch
  decode-later_field m s valid ok = (
    decode_with-Runs wire (switch wire node) base _ (record m { content = s })
        (encode-Runs wire node m valid
          >> field-Runs wire (switch wire node) 58 refl wire.string (λ v. record m { content = v })
              (λ bytes. refl) s ok),
    decode_with-Runs wire (switch wire node) base _ (record m { tags = m.tags ++ (s ∷ []) })
        (encode-Runs wire node m valid
          >> field-Runs wire (switch wire node) 82 refl wire.string
              (λ v. record m { tags = m.tags ++ (v ∷ []) }) (λ bytes. refl) s ok),
  )

  switch_cut :
      (m : Memo Node) (bytes : Bytes)
      → wire.string.get bytes ≡ none
      → switch wire node 58 m bytes ≡ failed
  unfolding switch
  switch_cut m bytes h = rw h refl

  -- When the reader cannot read the content that follows its tag, after the fields of a valid memo,
  -- nothing is decoded: the error is not lost, and no part of the memo comes back.
  pub decode-cut_field :
      (m : Memo Node) (bytes : Bytes)
      → Valid wire node m
      → wire.string.get bytes ≡ none
      → decode wire node (encode wire node m ++ (wire.put_uint32 58 ++ bytes)) ≡ none
  unfolding decode message_of finish
  decode-cut_field m bytes valid h =
      let fits : IsUint32 58 = omega arith in
      decode_with-append wire (switch wire node) base (encode wire node m)
        (wire.put_uint32 58 ++ bytes) m (encode-Runs wire node m valid)
      ∙ rw
          (
            length-append (wire.put_uint32 58) bytes,
            run_tag wire (switch wire node) m 58 (length bytes) bytes fits,
            switch_cut m bytes h,
          )
          refl

  switch_end :
      (m : Memo Node) (tag : ℕ) (bytes : Bytes)
      → (tag ≡ 0) ⊎ (tag % 8 ≡ 4)
      → switch wire node tag m bytes ≡ unknown
  unfolding switch
  switch_end m tag bytes (inl zero_tag) = ground arith
  switch_end m tag bytes (inr group_end) = ground arith

  is_end : (tag : ℕ) → (tag ≡ 0) ⊎ (tag % 8 ≡ 4) → (eqb (tag % 8) 4 || eqb tag 0) ≡ true
  is_end tag (inl zero_tag) = ground arith
  is_end tag (inr group_end) = ground arith

  -- A tag that is zero, or of the wire type that ends a group, ends a memo: after the fields of a valid
  -- memo, the memo comes back, and whatever follows that tag is not read, even what cannot be read.
  pub decode-end_tag :
      (m : Memo Node) (tag : ℕ) (bytes : Bytes)
      → Valid wire node m
      → IsUint32 tag
      → (tag ≡ 0) ⊎ (tag % 8 ≡ 4)
      → decode wire node (encode wire node m ++ (wire.put_uint32 tag ++ bytes)) ≡ some m
  unfolding decode message_of finish
  decode-end_tag m tag bytes valid fits h =
      decode_with-append wire (switch wire node) base (encode wire node m)
        (wire.put_uint32 tag ++ bytes) m (encode-Runs wire node m valid)
      ∙ rw
          (
            length-append (wire.put_uint32 tag) bytes,
            run_tag wire (switch wire node) m tag (length bytes) bytes fits,
            switch_end m tag bytes h,
            is_end tag h,
          )
          refl
