-- ===== src/Server/Resources/Registry.antt =====
-- server/src/resources.rs: `ServerResources`, the resources by their ids and the ids of each stage.
use protanki_protocol_rs.Common.{ℕ, none, some, List, [], ◌∷◌, map}
use protanki_protocol_rs.Common.Dict.{Dict, lookup, insert}
use protanki_protocol_rs.Server.Resources.{
  ResourceStage, connect, auth, lobby, ServerResource, JsonResource, ResourceResult, ok, ◌>>=◌,
  from_json_resource,
}

pub record ServerResources : Type 0 where
  pub resource_stage : Dict (List ℕ)
  pub resources : Dict ServerResource

-- The derived order of the stages.
unfoldable pub stage_key : ResourceStage → ℕ
stage_key connect = 0
stage_key auth = 1
stage_key lobby = 2

-- `load_resources_file!`: the first that cannot be read is the error of all.
unfoldable pub load_resources : List JsonResource → ResourceResult (List ServerResource)
unfolding from_json_resource
load_resources [] = ok []
load_resources (j ∷ js) = do r ← from_json_resource j; rs ← load_resources js; ok (r ∷ rs)

unfoldable pub insert_all : List ServerResource → Dict ServerResource → Dict ServerResource
unfolding insert
insert_all [] resources = resources
insert_all (r ∷ rs) resources = insert_all rs (insert r.id r resources)

unfoldable pub register_resources_for_stage :
    ServerResources → ResourceStage → List ServerResource → ServerResources
unfolding insert_all insert stage_key
register_resources_for_stage s stage rs = record {
  resource_stage =
      insert (stage_key stage) (map (λ (r : ServerResource). r.id) rs) s.resource_stage;
  resources = insert_all rs s.resources;
}

-- `ServerResources::new`, given the files of the three stages.
unfoldable pub new_server_resources :
    List JsonResource → List JsonResource → List JsonResource → ResourceResult ServerResources
unfolding load_resources register_resources_for_stage
new_server_resources connect_file auth_file lobby_file = do
  connects ← load_resources connect_file
  auths ← load_resources auth_file
  lobbies ← load_resources lobby_file
  let s' =
      register_resources_for_stage (record { resource_stage = []; resources = [] }) connect connects
  let s'' = register_resources_for_stage s' auth auths
  ok (register_resources_for_stage s'' lobby lobbies)

-- The code returns before it looks the ids up.
unfoldable pub get_resources : ServerResources → ResourceStage → List ServerResource
unfolding lookup stage_key
get_resources s stage = elim (lookup (stage_key stage) s.resource_stage) [
  | none ↦ []
  | some resource_ids ↦ []
]
