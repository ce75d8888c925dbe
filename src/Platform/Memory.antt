-- ===== src/Platform/Memory.antt =====
-- A platform in memory, on which the tests run the actuator.
use gardener_extension_shoot.Base.{
  ◌≡◌, refl, sym, ap, ◌∙◌, ◌≢◌, ◌⊎◌, Bool, false, ◌&&◌, Option, none, some, List, [], ◌∷◌, Result,
  ok, err, arith, if◌then◌else◌, Str, codes, ◌==◌,
}
use gardener_extension_shoot.Base.Dict.{Dict, lookup, insert}
use gardener_extension_shoot.Config.{PackConfig}
use gardener_extension_shoot.Platform.{
  Platform, Managed, Steady, Local, NamedReference, Secret, DeleteError, not_found,
}

pub record TestShoot : Type 0 where
  pub hibernated : Bool
  pub resources : List NamedReference

pub record TestSeed : Type 0 where
  pub cluster : Result Str (Option TestShoot)
  pub secrets : Dict Secret
  pub managed : Str → Str → Option (List (Str × Str))

pub record TestObject : Type 0 where
  pub kind : Str
  pub labels : Dict Str

abbrev pub is_hibernated : Option TestShoot → Bool
is_hibernated none = false
is_hibernated (some shoot) = shoot.hibernated

abbrev pub secret_in : Option Secret → Result Str Secret
secret_in none = err (codes "no such secret")
secret_in (some secret) = ok secret

-- One object for each file, whose kind is the text of the file.
abbrev pub objects_of : Dict Str → List TestObject
objects_of [] = []
objects_of ((_, content) ∷ fs) = record { kind = content; labels = [] } ∷ objects_of fs

abbrev pub put : Str → Str → Option (List (Str × Str)) → TestSeed → TestSeed
put ns name b s = record s {
  managed = λ ns' name'. if ns' == ns && name' == name then b else s.managed ns' name';
}

abbrev pub found_error : Option (List (Str × Str)) → Option DeleteError
found_error none = some not_found
found_error (some b) = none

-- The platform on which every text is the provider config of that configuration.
abbrev pub memory : PackConfig Str → Platform
memory cfg = record {
  Selector = Str;
  Shoot = TestShoot;
  Seed = TestSeed;
  get_cluster = λ ns s. s.cluster;
  hibernation_is_enabled = is_hibernated;
  resources = λ shoot. shoot.resources;
  get_secret = λ ns name s. secret_in (lookup name s.secrets);
  decode = λ raw. ok cfg;
  Bundle = List (Str × Str);
  create_for_shoot = λ ns name origin keep b s. (none, put ns name (some b) s);
  delete_for_shoot = λ ns name s. (found_error (s.managed ns name), put ns name none s);
  serialized_objects = λ entries. ok entries;
  Tree = Dict Str;
  make_fs_in_memory = [];
  mkdir_all = λ dir fs. ok fs;
  write_file = λ path content fs. ok (insert path content fs);
  marshal = λ k. ok k.namespace;
  kustomization_file_name = codes "kustomization.yaml";
  origin_annotations = codes "originAnnotations";
  Object = TestObject;
  run = λ fs dir. ok (objects_of fs);
  get_kind = λ r. r.kind;
  get_labels = λ r. r.labels;
  set_labels = λ labels r. ok (record r { labels = labels });
  as_yaml = λ r. ok r.kind;
}

put-same :
    (ns name : Str) (b : Option (List (Str × Str))) (s : TestSeed)
    → (put ns name b s).managed ns name ≡ b
put-same ns name b s = ground arith

put-other :
    (ns name : Str) (b : Option (List (Str × Str))) (s : TestSeed) (ns' name' : Str)
    → (ns' ≢ ns) ⊎ (name' ≢ name)
    → (put ns name b s).managed ns' name' ≡ s.managed ns' name'
put-other ns name b s ns' name' apart = ground arith

pub memory_managed : (cfg : PackConfig Str) → Managed (memory cfg)
memory_managed cfg = record {
  managed = λ ns name s. s.managed ns name;
  create_self = λ ns name origin keep b s h. put-same ns name (some b) s;
  create_other = λ ns name origin keep b s. put-other ns name (some b) s;
  delete_self = λ ns name s h. put-same ns name none s;
  delete_not_found = λ ns name s h. put-same ns name none s;
  delete_other = λ ns name s. put-other ns name none s;
}

pub memory-Steady : (cfg : PackConfig Str) → Steady (memory cfg)
memory-Steady cfg = record {
  cluster_create = λ ns name origin keep b s ns'. refl;
  cluster_delete = λ ns name s ns'. refl;
  secret_create = λ ns name origin keep b s ns' ref. refl;
  secret_delete = λ ns name s ns' ref. refl;
}

pub memory-Local : (cfg : PackConfig Str) → Local (memory_managed cfg)
unfolding memory_managed
memory-Local cfg = record {
  create_returns = λ ns name origin keep b s t h. refl;
  create_leaves = λ ns name origin keep b s t h.
      put-same ns name (some b) t ∙ sym (put-same ns name (some b) s);
  delete_returns = λ ns name s t h. ap found_error (h.resources name);
  delete_leaves = λ ns name s t h. put-same ns name none t ∙ sym (put-same ns name none s);
}
