-- ===== src/Engine/Op/Kinds.antt =====
-- The constants of `Kind` (engine/op.go).
use chaotic.Base.{ℕ}

abbrev pub http_client : ℕ
http_client = 1

abbrev pub http_server : ℕ
http_server = 2

abbrev pub sql : ℕ
sql = 3

abbrev pub grpc_client : ℕ
grpc_client = 4

abbrev pub grpc_server : ℕ
grpc_server = 5

abbrev pub explicit : ℕ
explicit = 6

abbrev pub pgx : ℕ
pgx = 7

abbrev pub redis : ℕ
redis = 8

abbrev pub rabbitmq : ℕ
rabbitmq = 9

abbrev pub mongo : ℕ
mongo = 10

abbrev pub kafka : ℕ
kafka = 11

abbrev pub aws : ℕ
aws = 12

abbrev pub nats : ℕ
nats = 13

abbrev pub net : ℕ
net = 14

abbrev pub io : ℕ
io = 15
