-- ===== src/Graph.antt =====
-- app/web/src/components/MemoRelationForceGraph/utils.ts: the graph of the relations between memos. A `Map`
-- keeps its keys in the order in which they were added.
pub mod Nodes
pub mod Tests
use collab_notes_ecs.Base.{
  Text, Bool, true, false, Option, none, some, List, [], ◌∷◌, ◌++◌, if◌then◌else◌, is_some,
}
use collab_notes_ecs.Base.Dict.{Dict, get, put, values}
use collab_notes_ecs.Api.{RelationType}

-- `MemoRelation_Memo`
pub record RelatedMemo : Type 0 where
  pub name : Text
  pub snippet : Text

-- `MemoRelation`, whose memos may be missing
pub record Relation : Type 0 where
  pub memo : Option RelatedMemo
  pub related_memo : Option RelatedMemo
  pub relation_type : RelationType

pub record NodeObject : Type 0 where
  pub id : Text
  pub memo : RelatedMemo

pub record LinkObject : Type 0 where
  pub source : Text
  pub target : Text
  pub relation_type : RelationType

pub record GraphData : Type 0 where
  pub nodes : List NodeObject
  pub links : List LinkObject

-- a node for the memo, if it has none yet
unfoldable pub add_node : RelatedMemo → Dict NodeObject → Dict NodeObject
add_node memo nodes_map =
    if is_some (get nodes_map memo.name)
    then nodes_map
    else put nodes_map memo.name (record { id = memo.name; memo = memo })

abbrev pub link_of : RelatedMemo → RelatedMemo → RelationType → LinkObject
link_of memo related_memo relation_type = record {
  source = memo.name;
  target = related_memo.name;
  relation_type = relation_type;
}

abbrev pub both : Option RelatedMemo → Option RelatedMemo → Option (RelatedMemo × RelatedMemo)
both none n = none
both (some m) none = none
both (some m) (some n) = some (m, n)

-- The two memos of a relation, if both are there.
abbrev pub ends : Relation → Option (RelatedMemo × RelatedMemo)
ends r = both r.memo r.related_memo

-- The body of `forEach`, over all relations. The name of a memo that is missing cannot be read: then the
-- call throws.
unfoldable pub collect :
    List Relation → Dict NodeObject → List LinkObject → Option (Dict NodeObject × List LinkObject)
collect [] nodes_map links = some (nodes_map, links)
collect (r ∷ relations) nodes_map links = elim (ends r) [
  | none ↦ none
  | some (memo, related_memo) ↦
      collect relations (add_node related_memo (add_node memo nodes_map))
        (links ++ (link_of memo related_memo r.relation_type ∷ []))
]

abbrev pub graph_of : Option (Dict NodeObject × List LinkObject) → Option GraphData
graph_of none = none
graph_of (some (nodes_map, links)) = some (record { nodes = values nodes_map; links = links })

unfoldable pub convert_memo_relations_to_graph_data : List Relation → Option GraphData
convert_memo_relations_to_graph_data memo_relations = graph_of (collect memo_relations [] [])
