-- ===== src/Presets.antt =====
-- preset/: the presets, each with its state, its options, its health check and its initialization.
pub mod Files
pub mod Localstack
pub mod Kafka
pub mod Rabbitmq
pub mod Mongo
pub mod Sql
pub mod Elastic
pub mod Redis
pub mod Memcached
pub mod K3s
pub mod Influxdb
pub mod Cassandra
pub mod Mariadb
pub mod Cockroachdb
pub mod Mssql
pub mod Mysql
pub mod Splunk
pub mod Postgres
