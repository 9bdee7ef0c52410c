-- ===== src/Graph/Tests.antt =====
-- The graph of two relations that share a memo.
use collab_notes_ecs.Base.{Text, txt, some, List, [], ◌∷◌, ◌≡◌, refl, All}
use collab_notes_ecs.Base.UniqBy.{with_key, IsUnique}
use collab_notes_ecs.Api.{reference}
use collab_notes_ecs.Graph.{RelatedMemo, Relation, GraphData, convert_memo_relations_to_graph_data}
use collab_notes_ecs.Graph.Nodes.{
  id_of, mentioned, IsLinked, convert_memo_relations_to_graph_data_lem,
}

abbrev memo_of : Text → RelatedMemo
memo_of name = record { name = name; snippet = [] }

abbrev relates : Text → Text → Relation
relates a b = record {
  memo = some (memo_of a);
  related_memo = some (memo_of b);
  relation_type = reference;
}

abbrev shared : List Relation
shared = relates (txt "memos/1") (txt "memos/2") ∷ relates (txt "memos/1") (txt "memos/3") ∷ []

convert_memo_relations_to_graph_data_lem_example :
    (g : GraphData) × (convert_memo_relations_to_graph_data shared ≡ some g)
    × IsUnique id_of g.nodes
    × ((name : Text) → with_key id_of name g.nodes ≡ with_key id_of name (mentioned shared))
    × All (IsLinked g.nodes) g.links
convert_memo_relations_to_graph_data_lem_example =
    convert_memo_relations_to_graph_data_lem shared (refl, (refl, tt))
