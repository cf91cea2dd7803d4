-- ===== src/Discv6/Urls.antt =====
-- rust_generators/crypto/gen_discv6_vectors.rs: the vectors of `tosnode` URLs, and the file that
-- `main` makes. A URL and its parts are lists of codes.
pub mod Parse
use tos_spec.Base.{ℕ, List, [], ◌∷◌, ◌++◌, String, Option, none, some, Bool, true, false}
use tos_spec.Base.Bytes.{codes}
use tos_spec.Crypto.{Curve, Hex}
use tos_spec.Discv6.Vectors.{
  IdentityVector, XorDistanceVector, Log2DistanceVector, generate_identity_vectors,
  generate_xor_distance_vectors, generate_log2_distance_vectors,
}

pub record UrlVector : Type 0 where
  pub name : String
  pub description : Option String
  pub url : List ℕ
  pub valid : Bool
  pub node_id_hex : Option (List ℕ)
  pub ip : Option (List ℕ)
  pub port : Option ℕ
  pub is_ipv6 : Option Bool

abbrev pub sample_node_id : List ℕ
sample_node_id = codes "1a2b3c4d5e6f708192a3b4c5d6e7f80910213243546576879899aabbccddeeff"

abbrev pub zeros_node_id : List ℕ
zeros_node_id = codes "0000000000000000000000000000000000000000000000000000000000000000"

-- `format!("tosnode://{}@...", id)`
unfoldable pub tosnode_url : List ℕ → List ℕ → List ℕ
tosnode_url id rest = codes "tosnode://" ++ (id ++ rest)

unfoldable pub valid_url : String → String → List ℕ → List ℕ → List ℕ → ℕ → Bool → UrlVector
valid_url name description url node_id ip port is_ipv6 = record {
  name = name;
  description = some description;
  url = url;
  valid = true;
  node_id_hex = some node_id;
  ip = some ip;
  port = some port;
  is_ipv6 = some is_ipv6;
}

unfoldable pub invalid_url : String → String → List ℕ → UrlVector
invalid_url name description url = record {
  name = name;
  description = some description;
  url = url;
  valid = false;
  node_id_hex = none;
  ip = none;
  port = none;
  is_ipv6 = none;
}

unfoldable pub generate_url_vectors : List UrlVector
generate_url_vectors =
    valid_url "valid_ipv4" "Standard IPv4 tosnode URL"
      (tosnode_url sample_node_id (codes "@192.168.1.1:2126")) sample_node_id (codes "192.168.1.1")
      2126 false
    ∷ valid_url "valid_ipv6" "IPv6 tosnode URL with brackets"
        (tosnode_url sample_node_id (codes "@[::1]:2126")) sample_node_id (codes "::1") 2126 true
    ∷ valid_url "valid_ipv6_full" "Full IPv6 address"
        (tosnode_url sample_node_id (codes "@[2001:db8::1]:2126")) sample_node_id
        (codes "2001:db8::1") 2126 true
    ∷ invalid_url "missing_scheme" "URL without tosnode:// prefix"
        (sample_node_id ++ codes "@192.168.1.1:2126")
    ∷ invalid_url "missing_separator" "URL without @ separator"
        (tosnode_url sample_node_id (codes "192.168.1.1:2126"))
    ∷ invalid_url "short_node_id" "Node ID too short (not 64 hex chars)"
        (codes "tosnode://1a2b3c@192.168.1.1:2126")
    ∷ invalid_url "invalid_hex" "Node ID contains non-hex characters" (
        codes
          "tosnode://gggggggggggggggggggggggggggggggggggggggggggggggggggggggggggggggg@192.168.1.1:2126")
    ∷ invalid_url "invalid_address" "Invalid IP address format"
        (tosnode_url sample_node_id (codes "@not-an-address:2126"))
    ∷ invalid_url "missing_port" "URL without port number"
        (tosnode_url sample_node_id (codes "@192.168.1.1"))
    ∷ valid_url "localhost" "Localhost address"
        (tosnode_url sample_node_id (codes "@127.0.0.1:2126")) sample_node_id (codes "127.0.0.1")
        2126 false
    ∷ valid_url "high_port" "Maximum valid port number"
        (tosnode_url sample_node_id (codes "@192.168.1.1:65535")) sample_node_id
        (codes "192.168.1.1") 65535 false
    ∷ valid_url "zeros_node_id" "Node ID of all zeros"
        (tosnode_url zeros_node_id (codes "@10.0.0.1:2126")) zeros_node_id (codes "10.0.0.1") 2126
        false
    ∷ []

pub record Discv6TestFile : Type 0 where
  pub protocol : String
  pub version : ℕ
  pub node_id_algorithm : String
  pub signature_algorithm : String
  pub kademlia_k : ℕ
  pub kademlia_alpha : ℕ
  pub num_buckets : ℕ
  pub identity_vectors : List IdentityVector
  pub xor_distance_vectors : List XorDistanceVector
  pub log2_distance_vectors : List Log2DistanceVector
  pub url_vectors : List UrlVector

-- `main` up to the writing of the file.
unfoldable pub discv6_test_file : Curve → Hex → (List ℕ → List ℕ) → Discv6TestFile
discv6_test_file c hex sha3_256 = record {
  protocol = "discv6";
  version = 6;
  node_id_algorithm = "SHA3-256";
  signature_algorithm = "TOS Schnorr (Ristretto255 + SHA3-512)";
  kademlia_k = 16;
  kademlia_alpha = 3;
  num_buckets = 256;
  identity_vectors = generate_identity_vectors c hex sha3_256;
  xor_distance_vectors = generate_xor_distance_vectors hex;
  log2_distance_vectors = generate_log2_distance_vectors hex;
  url_vectors = generate_url_vectors;
}
