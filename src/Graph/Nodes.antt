-- ===== src/Graph/Nodes.antt =====
-- app/web/src/components/MemoRelationForceGraph/utils.ts: which nodes and links the graph has.
use collab_notes_ecs.Base.{
  Text, ==_refl, true, false, Option, none, some, List, [], ◌∷◌, ◌++◌, ◌≡◌, refl, sym, ap, ◌∙◌, inl,
  inr, arith, is_some, Option-cases, All, All-append, append_assoc, append-nil,
}
use collab_notes_ecs.Base.Dict.{Dict, get, put, values, Each, Each-put}
use collab_notes_ecs.Base.UniqBy.{
  keeps_first, has_key, with_key, IsUnique, uniq_by-IsUnique, with_key-uniq_by, has_key-uniq_by,
  uniq_by-concat,
}
use collab_notes_ecs.Graph.{
  RelatedMemo, Relation, NodeObject, LinkObject, GraphData, add_node, link_of, ends, collect,
  graph_of, convert_memo_relations_to_graph_data,
}

abbrev pub node_of : RelatedMemo → NodeObject
node_of memo = record { id = memo.name; memo = memo }

-- The nodes of a relation's two memos, and of all relations, in their order.
abbrev pub mention : Option (RelatedMemo × RelatedMemo) → List NodeObject
mention none = []
mention (some (memo, related_memo)) = node_of memo ∷ node_of related_memo ∷ []

abbrev pub mentioned : List Relation → List NodeObject
mentioned [] = []
mentioned (r ∷ relations) = mention (ends r) ++ mentioned relations

abbrev pub IsComplete : Relation → Type 0
IsComplete r = is_some (ends r) ≡ true

abbrev pub id_of : NodeObject → Text
id_of n = n.id

-- Both ends of a link are nodes.
abbrev pub IsLinked : List NodeObject → LinkObject → Type 0
IsLinked nodes l = (has_key id_of l.source nodes ≡ true) × (has_key id_of l.target nodes ≡ true)

abbrev Keyed : Dict NodeObject → Type 0
Keyed = Each (λ k (n : NodeObject). n.id ≡ k)

get-has_key :
    (d : Dict NodeObject) (k : Text) → Keyed d → is_some (get d k) ≡ has_key id_of k (values d)
unfolding get values
get-has_key [] k h = refl
get-has_key ((j, n) ∷ d) k h = rw h.0 (ground (arith, get-has_key d k h.1))

put_new :
    (d : Dict NodeObject) (k : Text) (n : NodeObject)
    → get d k ≡ none
    → values (put d k n) ≡ values d ++ (n ∷ [])
unfolding get put values
put_new [] k n h = refl
put_new ((j, m) ∷ d) k n h = ground (arith, put_new d k n)

-- The map holds the first node of each name among those mentioned so far.
abbrev IsFirst : List NodeObject → Dict NodeObject → Type 0
IsFirst seen d = Keyed d × (values d ≡ keeps_first.uniq_by id_of seen)

module _ (memo : RelatedMemo) (seen : List NodeObject) (d : Dict NodeObject)
    (h : IsFirst seen d) where
  has_key-seen : has_key id_of memo.name seen ≡ is_some (get d memo.name)
  has_key-seen =
      sym (has_key-uniq_by id_of keeps_first memo.name seen)
      ∙ (ap (has_key id_of memo.name) (sym h.1) ∙ sym (get-has_key d memo.name h.0))

  add_node-IsFirst : IsFirst (seen ++ (node_of memo ∷ [])) (add_node memo d)
  unfolding add_node
  add_node-IsFirst = elim (Option-cases (get d memo.name)) [
    | inl missing ↦
        let fresh : has_key id_of memo.name seen ≡ false = has_key-seen ∙ ap is_some missing in
        rw missing (
          Each-put (λ k (n : NodeObject). n.id ≡ k) d memo.name (node_of memo) h.0 refl,
          put_new d memo.name (node_of memo) missing
              ∙ (ap (λ l. l ++ (node_of memo ∷ [])) h.1
                  ∙ sym (uniq_by-concat id_of keeps_first seen (node_of memo) ∙ rw fresh refl)),
        )
    | inr (n, found) ↦
        let there : has_key id_of memo.name seen ≡ true = has_key-seen ∙ ap is_some found in
        rw found
          (h.0, h.1 ∙ sym (uniq_by-concat id_of keeps_first seen (node_of memo) ∙ rw there refl))
  ]

has_key_right :
    (k : Text) (xs ys : List NodeObject)
    → has_key id_of k ys ≡ true
    → has_key id_of k (xs ++ ys) ≡ true
has_key_right k [] ys h = h
has_key_right k (x ∷ xs) ys h = ground (arith, has_key_right k xs ys h)

has_key_left :
    (k : Text) (xs ys : List NodeObject)
    → has_key id_of k xs ≡ true
    → has_key id_of k (xs ++ ys) ≡ true
has_key_left k [] ys h = absurd (cc)
has_key_left k (x ∷ xs) ys h = ground (arith, has_key_left k xs ys)

IsLinked-append :
    (seen more : List NodeObject) (links : List LinkObject)
    → All (IsLinked seen) links
    → All (IsLinked (seen ++ more)) links
IsLinked-append seen more [] h = tt
IsLinked-append seen more (l ∷ links) h = (
  (has_key_left l.source seen more h.0.0, has_key_left l.target seen more h.0.1),
  IsLinked-append seen more links h.1,
)

IsLinked-uniq_by :
    (seen : List NodeObject) (links : List LinkObject)
    → All (IsLinked seen) links
    → All (IsLinked (keeps_first.uniq_by id_of seen)) links
IsLinked-uniq_by seen [] h = tt
IsLinked-uniq_by seen (l ∷ links) h = (
  (
    has_key-uniq_by id_of keeps_first l.source seen ∙ h.0.0,
    has_key-uniq_by id_of keeps_first l.target seen ∙ h.0.1,
  ),
  IsLinked-uniq_by seen links h.1,
)

nothing-IsFirst : IsFirst [] []
unfolding values
nothing-IsFirst = (tt, sym (keeps_first.uniq_by-nil id_of))

collect_step :
    (r : Relation) (relations : List Relation) (memo related_memo : RelatedMemo)
    (d : Dict NodeObject) (links : List LinkObject)
    → ends r ≡ some (memo, related_memo)
    → collect (r ∷ relations) d links
      ≡ collect relations
          (add_node related_memo (add_node memo d))
          (links ++ (link_of memo related_memo r.relation_type ∷ []))
unfolding collect
collect_step r relations memo related_memo d links there = rw (there, collect) refl

-- What the loop leaves, from the nodes and links of the relations before.
collect_lem :
    (relations : List Relation) (seen : List NodeObject) (d : Dict NodeObject)
    (links : List LinkObject)
    → All IsComplete relations
    → IsFirst seen d
    → All (IsLinked seen) links
    → (d' : Dict NodeObject) × (links' : List LinkObject) × (collect relations d links
        ≡ some (d', links'))
      × IsFirst (seen ++ mentioned relations) d'
      × All (IsLinked (seen ++ mentioned relations)) links'
unfolding collect
collect_lem [] seen d links complete first linked =
    (d, links, refl, rw (append-nil seen) first, rw (append-nil seen) linked)
collect_lem (r ∷ relations) seen d links complete first linked = elim (Option-cases (ends r)) [
  | inl missing ↦ absurd (ground arith)
  | inr ((memo, related_memo), there) ↦
      let pair = node_of memo ∷ node_of related_memo ∷ [] in
      let added =
        add_node-IsFirst related_memo (seen ++ (node_of memo ∷ [])) (add_node memo d)
          (add_node-IsFirst memo seen d first) in
      let same : (seen ++ (node_of memo ∷ [])) ++ (node_of related_memo ∷ []) ≡ seen ++ pair =
        append_assoc seen (node_of memo ∷ []) (node_of related_memo ∷ []) in
      let link = link_of memo related_memo r.relation_type in
      let new_link : IsLinked (seen ++ pair) link = (
        has_key_right memo.name seen pair (ground (arith, ==_refl memo.name)),
        has_key_right related_memo.name seen pair (ground (arith, ==_refl related_memo.name)),
      ) in
      let rest =
        collect_lem relations (seen ++ pair) (add_node related_memo (add_node memo d))
          (links ++ (link ∷ [])) complete.1 (rw same at added)
          (All-append _ links (link ∷ []) (IsLinked-append seen pair links linked)
            (new_link, tt)) in
      let joined : seen ++ mentioned (r ∷ relations) ≡ (seen ++ pair) ++ mentioned relations =
        ap (λ o. seen ++ (mention o ++ mentioned relations)) there
        ∙ sym (append_assoc seen pair (mentioned relations)) in
      (
        rest.0,
        rest.1,
        collect_step r relations memo related_memo d links there ∙ rest.2,
        rw joined rest.3,
        rw joined rest.4,
      )
]

-- The relations of memos that are there give a graph, in which no two nodes have one name, a name has a
-- node exactly when a relation mentions it, the node being that of its first mention, and every link
-- joins two of the nodes.
pub convert_memo_relations_to_graph_data_lem :
    (relations : List Relation)
    → All IsComplete relations
    → (g : GraphData) × (convert_memo_relations_to_graph_data relations ≡ some g)
      × IsUnique id_of g.nodes
      × ((name : Text) → with_key id_of name g.nodes ≡ with_key id_of name (mentioned relations))
      × All (IsLinked g.nodes) g.links
unfolding convert_memo_relations_to_graph_data
convert_memo_relations_to_graph_data_lem relations complete =
    let (d, links, done, first, linked) =
      collect_lem relations [] [] [] complete nothing-IsFirst tt in
    (
      record { nodes = values d; links = links },
      ap graph_of done,
      rw first.1 (uniq_by-IsUnique id_of keeps_first (mentioned relations)),
      λ name. rw first.1 (with_key-uniq_by id_of keeps_first name (mentioned relations)),
      rw first.1 (IsLinked-uniq_by (mentioned relations) links linked),
    )
