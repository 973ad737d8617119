-- ===== src/Wardrobe/Tests.antt =====
-- backend/internal/wardrobe: tests, over a store that is its lists of items and images, and a network in
-- which one name stands for an internal address.
use mootd.Prelude.{
  ℕ, ◌+◌, ◌≤◌, true, false, Option, none, some, List, [], ◌∷◌, ◌≡◌, ◌∙◌, ◌≢◌, refl, sym, new,
  Result, ok, err, Text, text_eq, codes, if◌then◌else◌, length, All, ltb,
}
use mootd.Prelude.Mongo.{first_match, update_first, matches}
use mootd.Wardrobe.{
  ClothingItem, Image, MongoRepository, Handler, Patch, updated, deleted, found,
  update_item_handler, delete_item_handler, search_handler,
}
use mootd.Wardrobe.Owners.{IsStore, Untouched, delete_first, foreign-Untouched}
use mootd.Wardrobe.Download.{Net, Network, redirect, download_image}
use mootd.Wardrobe.Peers.{IsPublicPeer, connections, download_image-IsPublic}

abbrev W : Type 0
W = List ClothingItem × (Text → Option Image)

abbrev docs : W → List ClothingItem
docs w = w.0

abbrev images : W → Text → Option Image
images w = w.1

abbrev image_result : Option Image → Result Image
image_result none = err (new "no file")
image_result (some image) = ok image

abbrev repo : MongoRepository W
repo = record {
  items_col = record {
    find_one = λ p w. (ok (first_match p w.0), w);
    insert_one = λ x w. (none, (x ∷ w.0, w.1));
    update_one = λ p f w. (ok (matches p w.0), (update_first p f w.0, w.1));
  };
  delete_one = λ p w. (ok (matches p w.0), (delete_first p w.0, w.1));
  save_image = λ id image w. (none, (w.0, λ j. if text_eq id j then some image else w.1 j));
  get_image = λ id w. (image_result (w.1 id), w);
}

result_injective : {A : Type 0} {a b : A} → ◌≡◌ {A = Result A} (ok a) (ok b) → a ≡ b
result_injective h = cc

repo-IsStore : IsStore repo docs images
repo-IsStore = record {
  is_mongo = record {
    find_ok = λ p w o h. sym (result_injective h);
    find_docs = λ p w. refl;
    update_ok = λ p f w m h. ((λ t. result_injective h ∙ t), refl);
    update_err = λ p f w e h. cc;
    insert_ok = λ x w h. refl;
  };
  delete_ok = λ p w d h. (sym (result_injective h), refl);
  delete_err = λ p w e h. cc;
  find_keeps = λ p w. refl;
  delete_keeps = λ p w. refl;
}

abbrev picture : Image
picture = record { content = 1 ∷ []; content_type = codes "image/png" }

abbrev handler : Handler W
handler = record {
  is_allowed_image_url = λ url. true;
  download_image = λ url w. (ok picture, w);
  search = λ image brand w. (ok (brand ∷ []), w);
}

abbrev shirt : ClothingItem
shirt = record {
  id = codes "wi_1";
  user_id = codes "ann";
  category = "top";
  label = codes "shirt";
  image_url = [];
  png_image_url = codes "png";
  traits = [];
  created_at = 3;
}

abbrev world : W
world = (shirt ∷ [], λ id. some picture)

abbrev body : Patch
body = record { traits = ("color", "red") ∷ []; label = []; image_url = codes "https://shop/x" }

changed :
    (update_item_handler repo handler (some (codes "ann")) (codes "wi_1") (some body) world).1.0
    ≡ record shirt {
      traits = ("color", "red") ∷ [];
      image_url = codes "/v1/wardrobe/items/wi_1/image";
      png_image_url = [];
    }
      ∷ []
unfolding update_item_handler
changed = refl

removed : (delete_item_handler repo handler (some (codes "ann")) (codes "wi_1") world).1.0 ≡ []
unfolding delete_item_handler
removed = refl

foreign-Untouched_example :
    ((b : Option Patch)
      → ((update_item_handler repo handler (some (codes "eve")) (codes "wi_1") b world).0 ≢ updated)
        × Untouched repo handler docs images repo-IsStore world
            (update_item_handler repo handler (some (codes "eve")) (codes "wi_1") b world).1)
    × (((delete_item_handler repo handler (some (codes "eve")) (codes "wi_1") world).0 ≢ deleted)
        × Untouched repo handler docs images repo-IsStore world
            (delete_item_handler repo handler (some (codes "eve")) (codes "wi_1") world).1)
    × ((brand : Option Text)
        → ((products : List Text)
            → (search_handler repo handler (some (codes "eve")) (codes "wi_1") brand world).0
              ≢ found products)
          × Untouched repo handler docs images repo-IsStore world
              (search_handler repo handler (some (codes "eve")) (codes "wi_1") brand world).1)
foreign-Untouched_example =
    foreign-Untouched repo handler docs images repo-IsStore (codes "eve") (codes "wi_1") world refl

-- Addresses are numbers, of which 0 and 1 are internal, written in unary.
abbrev net : Net ℕ
net = record {
  is_loopback = λ ip. ltb ip 2;
  is_private = λ ip. false;
  is_link_local_unicast = λ ip. false;
  is_link_local_multicast = λ ip. false;
  is_unspecified = λ ip. false;
  is_multicast = λ ip. false;
  parse_ip = λ s. some (length s);
  split_host_port = λ s. some s;
  parse_url = λ s. some (codes "https", s);
  lower = λ c. c;
}

-- The site has an internal address, one that does not answer and one that does, and redirects to a name
-- that resolves to an internal address.
abbrev network : Network ℕ
network = record {
  resolve = λ url w. (
    ok (
        if text_eq url (codes "site")
        then codes "x" ∷ codes "xyzw" ∷ codes "xyz" ∷ []
        else codes "x" ∷ []),
    w + 1,
  );
  connect = λ address w. (text_eq address (codes "xyz"), w);
  request = λ url w. (ok (redirect (codes "trap")), w);
}

trapped :
    (download_image net network (codes "site") 0).0.1
    ≡ record { ip = 4; connected = false } ∷ record { ip = 3; connected = true } ∷ []
unfolding download_image
trapped = refl

download_image-IsPublic_example :
    All (IsPublicPeer net) (download_image net network (codes "site") 0).0.1
    × (connections net (download_image net network (codes "site") 0).0.1 ≤ 5)
download_image-IsPublic_example = download_image-IsPublic net network (codes "site") 0
