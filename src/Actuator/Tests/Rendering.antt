-- ===== src/Actuator/Tests/Rendering.antt =====
-- The theorems on the rendering of a pack, at a concrete one.
use gardener_extension_shoot.Base.{
  ◌≡◌, refl, false, none, some, ok-injective, List, [], ◌∷◌, ok, Str, codes, str_dec, arith, All,
}
use gardener_extension_shoot.Base.Dict.{Dict, lookup, insert, copy, lookup-insert_self}
use gardener_extension_shoot.Go.Strings.{itoa, digits_onto}
use gardener_extension_shoot.Go.Path.{
  base, join, clean, split_slash, segments, join_slash, is_rooted, go_up, clean_onto, rev_onto,
  last_segment,
}
use gardener_extension_shoot.Assets.{read}
use gardener_extension_shoot.Config.{PatchSpec}
use gardener_extension_shoot.Platform.{Patch, Secret, NamedReference}
use gardener_extension_shoot.Platform.Memory.{TestObject, TestShoot, TestSeed}
use gardener_extension_shoot.Actuator.Render.{
  pack_name_label, pack_version_label, patch_file, secret_from_resource_ref, write_resources,
  write_patches, add_patches, kustomize_filesystem, label_object, register_objects, render_pack,
}
use gardener_extension_shoot.Platform.{referenced_resources_prefix}
use gardener_extension_shoot.Go.Path.Laws.{IsPlain}
use gardener_extension_shoot.Actuator.Render.Collision.{add_patches-collision}
use gardener_extension_shoot.Actuator.Render.Distinct.{NodupKeys, render_pack-NodupKeys}
use gardener_extension_shoot.Actuator.Render.Laws.{AreRegistered, render_pack-AreRegistered}
use gardener_extension_shoot.Actuator.Tests.{P, ex, seed, shoot, spec_pg, pg17}

abbrev files : Dict Str
files =
    (codes "p/pg/17/a.yaml", codes "Service")
    ∷ (codes "p/pg/17/patch-ref-fix-k", codes "Patch")
    ∷ (codes "p/pg/17/kustomization.yaml", codes "kube-system")
    ∷ []

abbrev registered : List (Str × Str)
registered =
    (codes "p/pg/17/0", codes "Service")
    ∷ (codes "p/pg/17/1", codes "Patch")
    ∷ (codes "p/pg/17/2", codes "kube-system")
    ∷ []

run_render : render_pack P ex.namespace (some shoot) spec_pg pg17 seed ≡ ok registered
unfolding render_pack label_object register_objects copy pack_name_label pack_version_label itoa
    digits_onto kustomize_filesystem secret_from_resource_ref write_resources write_patches
    add_patches read referenced_resources_prefix patch_file lookup insert str_dec base join clean
    split_slash segments join_slash is_rooted go_up clean_onto rev_onto last_segment
run_render = refl

render_pack-AreRegistered_example :
    (fs : Dict Str) × (objects : List TestObject) × (entries : List (Str × Str))
    × (kustomize_filesystem P ex.namespace (some shoot) spec_pg pg17 seed ≡ ok fs)
    × (P.run fs pg17.base_dir ≡ ok objects)
    × AreRegistered P pg17 0 objects entries
    × (P.serialized_objects entries ≡ ok registered)
render_pack-AreRegistered_example =
    render_pack-AreRegistered P pg17 ex.namespace (some shoot) spec_pg seed run_render

-- Two patches from secrets whose names and keys are joined by a dash elsewhere.
abbrev spec_a_b : PatchSpec Str
spec_a_b = record { resource_ref = codes "a-b"; target = some (codes "kind: Service") }

abbrev spec_a : PatchSpec Str
spec_a = record { resource_ref = codes "a"; target = none }

abbrev secret_a_b : Secret
secret_a_b = record { name = codes "ref-a-b"; content = (codes "c", codes "X") ∷ [] }

abbrev secret_a : Secret
secret_a = record { name = codes "ref-a"; content = (codes "b-c", codes "Y") ∷ [] }

abbrev reference : Str → NamedReference
reference name = record { name = name; kind = codes "Secret"; api_version = codes "v1" }

abbrev dashed_shoot : TestShoot
dashed_shoot = record {
  hibernated = false;
  resources = reference (codes "a-b") ∷ reference (codes "a") ∷ [];
}

abbrev dashed_seed : TestSeed
dashed_seed = record seed {
  secrets = (codes "ref-a-b", secret_a_b) ∷ (codes "ref-a", secret_a) ∷ [];
}

run_a_b :
    secret_from_resource_ref P ex.namespace (codes "a-b") (some dashed_shoot) dashed_seed
    ≡ ok secret_a_b
unfolding secret_from_resource_ref referenced_resources_prefix lookup str_dec
run_a_b = refl

run_a :
    secret_from_resource_ref P ex.namespace (codes "a") (some dashed_shoot) dashed_seed
    ≡ ok secret_a
unfolding secret_from_resource_ref referenced_resources_prefix lookup str_dec
run_a = refl

abbrev one_file : List (Patch Str) × Dict Str
one_file = (
  record { path = codes "patch-ref-a-b-c"; target = some (codes "kind: Service") }
      ∷ record { path = codes "patch-ref-a-b-c"; target = none }
      ∷ [],
  (codes "p/pg/17/patch-ref-a-b-c", codes "Y") ∷ [],
)

run_dashed :
    add_patches P ex.namespace
      (codes "p/pg/17")
      (some dashed_shoot)
      dashed_seed
      (spec_a_b ∷ spec_a ∷ [])
      []
      []
    ≡ ok one_file
unfolding secret_from_resource_ref write_patches add_patches referenced_resources_prefix patch_file
    lookup insert str_dec base join clean split_slash segments join_slash is_rooted go_up clean_onto
    rev_onto last_segment
run_dashed = refl

lookup-write_file :
    (path content : Str) (t t' : Dict Str)
    → P.write_file path content t ≡ ok t'
    → lookup path t' ≡ some content
lookup-write_file path content t t' h = rw (← ok-injective h) (lookup-insert_self path content t)

add_patches-collision_example :
    let path = patch_file (codes "ref-a-b") (codes "c") in
    (one_file.0
      ≡ record { path = path; target = spec_a_b.target }
        ∷ record { path = path; target = spec_a.target }
        ∷ [])
    × (lookup (join (codes "p/pg/17") path) one_file.1 ≡ some (codes "Y"))
add_patches-collision_example =
    add_patches-collision P lookup lookup-write_file ex.namespace (codes "p/pg/17")
      (some dashed_shoot) dashed_seed spec_a_b spec_a (codes "ref-a") (codes "b") (codes "c")
      (codes "X") (codes "Y") [] {patched = one_file} run_a_b run_a run_dashed

abbrev parts : List Str
parts = codes "pg" ∷ codes "17" ∷ []

p-IsPlain : IsPlain (codes "p")
p-IsPlain = ground arith

parts-IsPlain : All IsPlain parts
parts-IsPlain = (ground arith, (ground arith, tt))

run_base_dir : pg17.base_dir ≡ join_slash (codes "p" ∷ parts)
unfolding join_slash
run_base_dir = refl

render_pack-NodupKeys_example :
    (entries : List (Str × Str)) × NodupKeys entries
    × (P.serialized_objects entries ≡ ok registered)
render_pack-NodupKeys_example =
    render_pack-NodupKeys P pg17 (codes "p") parts p-IsPlain parts-IsPlain run_base_dir ex.namespace
      (some shoot) spec_pg seed run_render
