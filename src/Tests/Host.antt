-- ===== src/Tests/Host.antt =====
-- The host: disk images, digests, addresses, labels, the node and its users.
use macos_exec_kubelet.Base.{
  String, true, false, Option, none, some, List, [], ◌∷◌, ◌++◌, ◌-◌, ok, length, ◌==◌,
  if◌then◌else◌, pos, ◌≡◌, refl, nat_eq, string_eq, arith, ◌⊎◌,
}
use macos_exec_kubelet.Disk.Sparse.{zeros, write_at}
use macos_exec_kubelet.Disk.Decompress.{Output, Reads, more, eof, Progress, decompress, put_block}
use macos_exec_kubelet.Disk.Decompress.Content.{content, given, at_eof, decompress-content}
use macos_exec_kubelet.Disk.Digest.{Files, validate_file_with_digest}
use macos_exec_kubelet.Disk.Digest.Evidence.{Cached, Computed, validate_file_with_digest-Cached}
use macos_exec_kubelet.Label.{sanitize_apple_cpu_model}
use macos_exec_kubelet.Label.Shape.{IsLabelValue, sanitize_apple_cpu_model-IsLabelValue}
use macos_exec_kubelet.Net.{Interface, Ip, find_valid_ip, get_active_interface}
use macos_exec_kubelet.Provider.Node.{Host, Node}

abbrev good_output : Output
good_output = record { seek_reply = λ o. none; write_reply = λ o chunk. none }

-- Two reads, and some bytes that come with the end.
abbrev reads : Reads
reads = more (1 ∷ 2 ∷ []) (more (3 ∷ []) (eof (4 ∷ [])))

abbrev written : Progress
written = record { file = 1 ∷ 2 ∷ 3 ∷ 0 ∷ []; hashed = 1 ∷ 2 ∷ 3 ∷ []; offset = 3 }

decompressed : decompress good_output reads 4 ≡ ok written
unfolding decompress put_block nat_eq write_at
decompressed = refl

decompress-content_example :
    (written.file ≡ content reads ++ zeros (4 - length (content reads)))
    × (written.hashed ≡ content reads)
    × (written.hashed ++ at_eof reads ≡ given reads)
decompress-content_example =
    decompress-content good_output reads 4 written (omega arith) decompressed

-- A digest file that is newer than its file.
abbrev files : Files
files = record {
  stat = λ path. if path == "disk.digest" then ok 2 else ok 1;
  is_not_exist = λ e. false;
  read_file = λ path. ok "sha256:1";
  open_reply = λ path. none;
  copy_reply = λ path. ok [];
  create_reply = λ path. none;
  write_reply = λ path text. none;
  close_reply = λ path. none;
  verified = λ d bytes. false;
}

validate_file_with_digest-Cached_example :
    let calls = (validate_file_with_digest files "disk" "sha256:1").1 in
    Cached files "disk" "sha256:1" calls ⊎ Computed files "disk" "sha256:1" calls
unfolding validate_file_with_digest string_eq
validate_file_with_digest-Cached_example =
    validate_file_with_digest-Cached files "disk" "sha256:1" refl

abbrev parse : String → Option Ip
parse a =
    if a == "10.0.0.5/24"
    then some (record { is_ipv4 = true; is_loopback = false; text = "10.0.0.5" })
    else none

abbrev interfaces : List Interface
interfaces =
    record { name = "lo0"; addresses = "127.0.0.1/8" ∷ [] }
    ∷ record { name = "en0"; addresses = "fe80::1/64" ∷ "10.0.0.5/24" ∷ [] }
    ∷ []

address_found : get_active_interface parse interfaces ≡ ok "10.0.0.5"
unfolding get_active_interface find_valid_ip string_eq
address_found = refl

sanitize_apple_cpu_model-IsLabelValue_example :
    IsLabelValue (sanitize_apple_cpu_model "Apple M1 Pro")
sanitize_apple_cpu_model-IsLabelValue_example = sanitize_apple_cpu_model-IsLabelValue "Apple M1 Pro"

model_sanitized : sanitize_apple_cpu_model "Apple M1 Pro" ≡ "M1_Pro"
unfolding sanitize_apple_cpu_model nat_eq
model_sanitized = refl

-- An underscore next to another character that is replaced stays, so that two follow each other.
two_underscores : sanitize_apple_cpu_model "M1 _Pro" ≡ "M1__Pro"
unfolding sanitize_apple_cpu_model nat_eq
two_underscores = refl

abbrev host : Host
host = record {
  memory_total = ok 1024;
  cpu_count = ok 8;
  disk_total = ok 4096;
  interfaces = ok interfaces;
  parse_cidr = parse;
  info = ok (record {
    host_id = "h";
    kernel_version = "23";
    os = "darwin";
    platform_version = "14";
    platform = "Darwin";
    kernel_arch = "arm64";
  });
  cpu_models = ok ("Apple M1" ∷ []);
  to_lower = λ s. s;
}

abbrev blank_node : Node
blank_node = record {
  capacity = none;
  allocatable = none;
  conditions = [];
  addresses = [];
  kubelet_port = pos 0;
  machine_id = "";
  kernel_version = "";
  os_image = "";
  container_runtime_version = "";
  operating_system = "";
  architecture = "";
  labels = [];
}
