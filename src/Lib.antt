-- ===== src/Lib.antt =====
-- Oversight: models and proofs about the Python reference implementation of the Oversight
-- protocol, which seals a file for one recipient, marks its text, registers the mark in a
-- transparency log and attributes a leaked copy.
--
-- Parts and their files:
-- Merkle.antt models, of oversight_core/tlog.py, `largest_power_of_2_less_than`, `mth`
-- (`_rfc6962_mth`), `path` (`_rfc6962_path`) and `rebuild` (the inner function of
-- `verify_inclusion_proof`). The hash is a parameter; where a proof needs it, its digests are 32
-- bytes. Fuel is the number of leaves, and `Merkle/Tree.antt` and `Merkle/Complete.antt` prove it
-- enough.
-- Bits.antt models `_bits_of` and `_bytes_from_bits` of oversight_core/watermark.py, which
-- semantic.py and ecc.py repeat.
-- Variants.antt models `_mark_id_to_variant_sequence` of oversight_core/semantic.py, with as much
-- fuel as there are instances.
-- Ecc.antt models oversight_core/ecc.py; a float confidence is kept as the two counts whose
-- quotient it is, and compared as an exact fraction.
-- ZeroWidth.antt, Whitespace.antt and Watermark.antt model layers L1 and L2 of
-- oversight_core/watermark.py and their composition with L3 off. A text is the list of its code
-- points.
-- RateLimit.antt models `TokenBucket` of registry/server.py, with time and tokens counted in equal
-- parts of a second and of a token in place of floats.
-- Tlog.antt models `TransparencyLog` of oversight_core/tlog.py: the leaves in memory, the cached
-- root and the file of records, each line as the JSON value that it holds. Hex.antt has the
-- hexadecimal digits of its records.
-- Json.antt and Jcs.antt model JSON values and the canonical text of oversight_core/jcs.py; a text
-- is the list of its code points.
-- Registry.antt, Registry/Access.antt, Registry/Register.antt, Registry/Store.antt,
-- Registry/Events.antt, Registry/Reads.antt and Registry/Attribute.antt model registry/server.py:
-- the database as tables with a primary key, access control, `register`, the beacon endpoints,
-- `dns_event` and `attribute`. `str()`, the ipaddress module, the hash and the settings are
-- parameters, collected in the record Setup; so is the check of a manifest's signature, which
-- Registry/Signature.antt fills with the parser and the `verify` of Manifest.antt. A reply is an
-- answer, a refusal with its status, or an exception that no handler expects.
-- Result.antt is what a function of the core returns or raises, an exception by its class.
-- Crypto.antt models oversight_core/crypto.py over a record of the primitives of its packages;
-- random values are arguments. Manifest.antt and Manifest/Parser.antt model
-- oversight_core/manifest.py, Policy.antt models oversight_core/policy.py with the state directory
-- as a table, and Container.antt and Container/Seal.antt model oversight_core/container.py: `seal`
-- signs the manifest and calls the wrappers of crypto.py, `open_sealed` parses, verifies, asks the
-- policy, decrypts and counts the open.
-- Fingerprint.antt models the winnowing of oversight_core/fingerprint.py, with the case folding of
-- Python and the hash of a k-gram as parameters. Base64.antt and Rekor.antt model the statement,
-- the DSSE envelope and the offline check of oversight_core/rekor.py; the registry signs such a
-- statement for a registration.
-- Semantic.antt, with Semantic/Case.antt, Semantic/Table.antt and Semantic/Words.antt, models the
-- synonym layer of oversight_core/semantic.py with its first table: `_case_preserve`, the lookup,
-- `embed_synonyms`, `verify_synonyms_match` and `extract_synonyms_candidate`. What `re` takes for
-- a word character is a parameter; a score is kept as a fraction.
-- Semantic/Classes.antt, Semantic/Lookup.antt and Semantic/Matchable.antt model
-- oversight_core/synonyms_v2.py, and Semantic/Expanded.antt the two functions of
-- oversight_core/semantic.py that use it; the spans that the patterns to skip match in a text are
-- a parameter.
-- Beacon.antt models `gen_beacons` of oversight_core/beacon.py with the random tokens as an
-- argument. Dns.antt models the resolver of oversight_dns/server.py; what it posts is the body of
-- the registry's `dns_event`, and Dns/Attribution.antt joins the three.
-- Semantic/Spelling.antt models the spelling and contraction marks of oversight_core/semantic.py.
-- L3Policy.antt models the decision of oversight_core/l3_policy.py and L3Policy/Regions.antt its
-- `apply_l3_safe`, which calls these layers; the answers of the patterns, the test of a protected
-- line, which is made of patterns, and `splitlines` are parameters.
-- Prelude, Wire and Table hold shared names, big-endian words, and SQL tables with a primary key.
--
-- Not modelled: cryptographic primitives and other packages, which enter as parameters; regular
-- expressions over prose; network, file and database input and output as such; the command line
-- and the desktop interface; the Rust implementation. Outside the models' domain, where the source
-- raises, are a density and a class size of 0 and texts with lone surrogates; the comments at the
-- definitions say so.
pub mod Base64
pub mod Beacon
pub mod Bits
pub mod Container
pub mod Crypto
pub mod Dns
pub mod Ecc
pub mod Fingerprint
pub mod Hex
pub mod Jcs
pub mod Json
pub mod L3Policy
pub mod Manifest
pub mod Merkle
pub mod Policy
pub mod Prelude
pub mod RateLimit
pub mod Registry
pub mod Rekor
pub mod Result
pub mod Semantic
pub mod Table
pub mod Tlog
pub mod Variants
pub mod Watermark
pub mod Whitespace
pub mod Wire
pub mod ZeroWidth
